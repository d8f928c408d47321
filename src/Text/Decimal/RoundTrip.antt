-- ===== src/Text/Decimal/RoundTrip.antt =====
-- The texts of `%d` against Atoi and ParseUint.
use mathlib.Core.Logic.{dif_pos, dif_neg}
use mathlib.Core.WellFounded.{Acc}
use native.Mathlib.Decide.{dec_lt}
use native.Mathlib.Bridge.{le_prop}
use discoblock.Base.{
  ℕ, zero, suc, ◌+◌, ◌-◌, ◌*◌, ◌/◌, ◌%◌, ◌≤◌, ◌<◌, code, String, ◌≡◌, refl, ap, ◌∙◌, true, false,
  some, arith,
}
use discoblock.Base.Int.{ℤ, pos, negsuc, max_int64, IsInt}
use discoblock.Text.Decimal.{
  digit, emit, descent, quotient_lt, format_uint, format_int, is_digit, scan, parse_digits,
  in_int_range, parse_uint, atoi,
}

record IsDigitOf (d : ℕ) : Type 0 where
  accepted : is_digit (digit d) ≡ true
  value : code (digit d) - b'0' ≡ d
  unsigned : 48 ≤ code (digit d)

digit_lem : (d : ℕ) → d < 10 → IsDigitOf d
unfolding digit is_digit
digit_lem zero h = ground arith
digit_lem (suc zero) h = ground arith
digit_lem (suc (suc zero)) h = ground arith
digit_lem (suc (suc (suc zero))) h = ground arith
digit_lem (suc (suc (suc (suc zero)))) h = ground arith
digit_lem (suc (suc (suc (suc (suc zero))))) h = ground arith
digit_lem (suc (suc (suc (suc (suc (suc zero)))))) h = ground arith
digit_lem (suc (suc (suc (suc (suc (suc (suc zero))))))) h = ground arith
digit_lem (suc (suc (suc (suc (suc (suc (suc (suc zero)))))))) h = ground arith
digit_lem (suc (suc (suc (suc (suc (suc (suc (suc (suc zero))))))))) h = ground arith
digit_lem (suc (suc (suc (suc (suc (suc (suc (suc (suc (suc n)))))))))) h = absurd (omega arith)

scan-digit :
    (d acc : ℕ) (s : String) → d < 10 → scan (String.◌∷◌ (digit d) s) acc ≡ scan s (acc * 10 + d)
unfolding scan
scan-digit d acc s h = ground (arith, digit_lem d h)

-- Read from 0, the digits in front of a text have the value of the number.
scan-emit : (n : ℕ) (w : Acc ◌<◌ n) (out : String) → scan (emit n w out) 0 ≡ scan out n
unfolding emit
scan-emit n (Acc.intro _ smaller) out = elim (dec_lt 0 (n / 10)) [
  | yes h ↦ rw (dif_pos (dec_lt 0 (n / 10)) le_prop h) (
      scan-emit (n / 10) (smaller (n / 10) (quotient_lt n h)) (String.◌∷◌ (digit (n % 10)) out)
      ∙ scan-digit (n % 10) (n / 10) out (omega arith)
      ∙ ap (scan out) (omega arith))
  | no h ↦
      rw (dif_neg (dec_lt 0 (n / 10)) h)
        (scan-digit (n % 10) 0 out (omega arith) ∙ ap (scan out) (omega arith))
]

abbrev Leads : String → Type 0
Leads s = (d : ℕ) × (t : String) × (d < 10) × (s ≡ String.◌∷◌ (digit d) t)

emit-Leads : (n : ℕ) (w : Acc ◌<◌ n) (out : String) → Leads (emit n w out)
unfolding emit
emit-Leads n (Acc.intro _ smaller) out = elim (dec_lt 0 (n / 10)) [
  | yes h ↦
      rw (dif_pos (dec_lt 0 (n / 10)) le_prop h)
        (emit-Leads (n / 10) (smaller (n / 10) (quotient_lt n h)) (String.◌∷◌ (digit (n % 10)) out))
  | no h ↦ rw (dif_neg (dec_lt 0 (n / 10)) h) (n % 10, out, omega arith, refl)
]

Leads-parse_digits : (s : String) → Leads s → parse_digits s ≡ scan s 0
unfolding parse_digits
Leads-parse_digits s (d, t, h, e) = rw e

Leads-atoi : (s : String) → Leads s → atoi s ≡ in_int_range false (parse_digits s)
unfolding atoi
Leads-atoi s (d, t, h, e) = rw e (ground (arith, digit_lem d h))

-- `ParseUint` without its range check reads what `%d` writes.
pub parse_digits-format_uint : (n : ℕ) → parse_digits (format_uint n) ≡ some n
unfolding format_uint scan
parse_digits-format_uint n =
    Leads-parse_digits _ (emit-Leads n (descent.apply n) "") ∙ scan-emit n (descent.apply n) ""

pub parse_uint-format_uint : (limit n : ℕ) → n < limit → parse_uint limit (format_uint n) ≡ some n
unfolding parse_uint
parse_uint-format_uint limit n h = ground (arith, parse_digits-format_uint n)

atoi-format_uint : (n : ℕ) → n ≤ max_int64 → atoi (format_uint n) ≡ some (pos n)
unfolding format_uint in_int_range
atoi-format_uint n h =
    Leads-atoi _ (emit-Leads n (descent.apply n) "")
    ∙ ap (in_int_range false) (parse_digits-format_uint n)
    ∙ ground arith

-- `strconv.Atoi(fmt.Sprintf("%d", i))` is `i`, for every 64-bit int.
pub atoi-format_int : (i : ℤ) → IsInt i → atoi (format_int i) ≡ some i
unfolding format_int atoi in_int_range
atoi-format_int (pos n) h = atoi-format_uint n h
atoi-format_int (negsuc n) h = rw (parse_digits-format_uint (n + 1)) (ground arith)

-- Two numbers with one decimal text are equal.
pub format_uint_injective : (n m : ℕ) → format_uint n ≡ format_uint m → n ≡ m
format_uint_injective n m e = cc (parse_digits-format_uint n, parse_digits-format_uint m)
