-- ===== src/Text/Decimal.antt =====
-- fmt's `%d` and strconv's `Atoi` and `ParseUint` in base 10.
pub mod RoundTrip
use mathlib.Core.Logic.{dite}
use mathlib.Core.WellFounded.{Acc, WellFounded}
use native.Mathlib.Decide.{dec_lt}
use discoblock.Base.{
  ℕ, zero, suc, ◌+◌, ◌-◌, ◌*◌, ◌/◌, ◌%◌, ◌≤◌, ◌<◌, Char, code, String, ◌≡◌, refl, Bool, true, false,
  ◌&&◌, ◌||◌, Option, none, some, arith, ltb, leb, ◌==◌, if◌then◌else◌, Bool-cases, inl, inr,
}
use discoblock.Base.Int.{ℤ, pos, negsuc, max_int64, IsInt}

unfoldable pub digit : ℕ → Char
digit zero = "0"
digit (suc zero) = "1"
digit (suc (suc zero)) = "2"
digit (suc (suc (suc zero))) = "3"
digit (suc (suc (suc (suc zero)))) = "4"
digit (suc (suc (suc (suc (suc zero))))) = "5"
digit (suc (suc (suc (suc (suc (suc zero)))))) = "6"
digit (suc (suc (suc (suc (suc (suc (suc zero))))))) = "7"
digit (suc (suc (suc (suc (suc (suc (suc (suc zero)))))))) = "8"
digit n = "9"

-- A division by ten that leaves digits makes the number smaller.
quotient_lt : (n : ℕ) → 0 < n / 10 → n / 10 < n
quotient_lt n left = omega arith

within : (bound : ℕ) {m : ℕ} → m < bound → Acc ◌<◌ m
within zero below = elim below [ ]
within (suc bound) below = Acc.intro _ λ k smaller. within bound (omega (arith, below, smaller))

-- The order that the printing of digits descends.
unfoldable pub descent : WellFounded ◌<◌
unfolding within
descent = record { apply = λ m. within (m + 1) (omega arith) }

-- The digits of a number in front of a text that is already written.
emit : (n : ℕ) → Acc ◌<◌ n → String → String
emit n (Acc.intro _ smaller) out =
    dite (dec_lt 0 (n / 10))
      (λ left.
        emit (n / 10) (smaller (n / 10) (quotient_lt n left)) (String.◌∷◌ (digit (n % 10)) out))
      (λ _. String.◌∷◌ (digit (n % 10)) out)

unfoldable pub format_uint : ℕ → String
unfolding emit descent dec_lt digit quotient_lt
format_uint n = emit n (descent.apply n) ""

unfoldable pub format_int : ℤ → String
unfolding format_uint
format_int (pos n) = format_uint n
format_int (negsuc n) = String.◌∷◌ "-" (format_uint (n + 1))

unfoldable pub is_digit : Char → Bool
is_digit c = leb b'0' (code c) && leb (code c) b'9'

-- Reads digits up to the end of the text; the values do not wrap, ranges are checked by callers.
unfoldable pub scan : String → ℕ → Option ℕ
unfolding is_digit
scan String.[] n = some n
scan (String.◌∷◌ c s) n = if is_digit c then scan s (n * 10 + (code c - b'0')) else none

unfoldable pub parse_digits : String → Option ℕ
unfolding scan
parse_digits String.[] = none
parse_digits (String.◌∷◌ c s) = scan (String.◌∷◌ c s) 0

-- `strconv.ParseUint(s, 10, bits)` at a limit of 2 ^ bits: a syntax or a range error is `none`.
unfoldable pub parse_uint : ℕ → String → Option ℕ
unfolding parse_digits
parse_uint limit s = elim (parse_digits s) [
  | none ↦ none
  | some n ↦ if ltb n limit then some n else none
]

in_int_range : Bool → Option ℕ → Option ℤ
in_int_range negative none = none
in_int_range false (some n) = if leb n max_int64 then some (pos n) else none
in_int_range true (some zero) = some (pos 0)
in_int_range true (some (suc n)) = if leb n max_int64 then some (negsuc n) else none

-- `strconv.Atoi`: one optional sign, digits, and the range of a 64-bit int.
unfoldable pub atoi : String → Option ℤ
unfolding in_int_range parse_digits
atoi String.[] = none
atoi (String.◌∷◌ c s) =
    if code c == b'-'
    then in_int_range true (parse_digits s)
    else if code c == b'+'
    then in_int_range false (parse_digits s)
    else in_int_range false (parse_digits (String.◌∷◌ c s))

atoi_runs : (atoi "-12" ≡ some (negsuc 11)) × (atoi "+7" ≡ some (pos 7)) × (atoi "1x" ≡ none)
unfolding atoi
atoi_runs = (refl, refl, refl)

atoi_range : atoi "9223372036854775808" ≡ none
unfolding atoi
atoi_range = refl

format_runs : (format_int (negsuc 41) ≡ "-42") × (format_uint 0 ≡ "0")
unfolding format_int
format_runs = (refl, refl)
