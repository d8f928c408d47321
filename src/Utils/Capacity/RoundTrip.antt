-- ===== src/Utils/Capacity/RoundTrip.antt =====
-- pkg/utils/capacity.go: ParseCapacity against the printing of a size and a unit.
use Prim.Native.String.append
use text.Mathlib.TextLemmas.{cons-append, cons≢nil}
use mathlib.Core.Path.{subst}
use discoblock.Base.{
  sym, Char, ℕ, ◌^◌, ◌+◌, ◌-◌, ◌*◌, ◌<◌, code, String, ◌⧺◌, ◌≡◌, refl, Bool, true, false, some,
  str_eq, eq_iff, arith, Bool-cases, inl, inr,
}
use discoblock.Kube.Exec.{ok}
use discoblock.Text.Decimal.{is_digit, scan, parse_digits, format_uint}
use discoblock.Text.Decimal.RoundTrip.{parse_uint-format_uint, parse_digits-format_uint}
use discoblock.Utils.Capacity.{span_digits, is_unit, sized, parse_capacity}

leads_digit : String → Bool
leads_digit String.[] = false
leads_digit (String.◌∷◌ c s) = is_digit c

span_rest : (u : String) → leads_digit u ≡ false → span_digits u ≡ ("", u)
unfolding span_digits leads_digit
span_rest String.[] h = refl
span_rest (String.◌∷◌ c s) h = rw h

span-append :
    (s u : String) (acc n : ℕ)
    → scan s acc ≡ some n
    → leads_digit u ≡ false
    → span_digits (s ⧺ u) ≡ (s, u)
unfolding span_digits scan
span-append String.[] u acc n h q = rw (append.nil u) (span_rest u q)
span-append (String.◌∷◌ c s) u acc n h q = rw (cons-append c s u) (elim (Bool-cases (is_digit c)) [
  | inl d ↦ rw (d, span-append s u (acc * 10 + (code c - b'0')) n (ground arith) q)
  | inr d ↦ absurd (ground arith)
])

cons_ne : (c : Char) (s : String) → str_eq (String.◌∷◌ c s) "" ≡ false
cons_ne c s = elim (Bool-cases (str_eq (String.◌∷◌ c s) "")) [
  | inl e ↦ absurd (cons≢nil ((eq_iff (String.◌∷◌ c s) "").0 e))
  | inr e ↦ e
]

parse_digits-scan :
    (s : String) (n : ℕ) → parse_digits s ≡ some n → (scan s 0 ≡ some n) × (str_eq s "" ≡ false)
unfolding parse_digits
parse_digits-scan String.[] n h = absurd (ground arith)
parse_digits-scan (String.◌∷◌ c s) n h = (h, cons_ne c s)

unit_case :
    (u unit : String) → leads_digit unit ≡ false → str_eq u unit ≡ true → leads_digit u ≡ false
unit_case u unit h e = subst (λ v. leads_digit v ≡ false) (sym ((eq_iff u unit).0 e)) h

is_unit-leads_digit : (u : String) → is_unit u ≡ true → leads_digit u ≡ false
unfolding is_unit leads_digit is_digit
is_unit-leads_digit u h = ground (
  arith,
  unit_case u "m" refl,
  unit_case u "Mi" refl,
  unit_case u "g" refl,
  unit_case u "Gi" refl,
  unit_case u "t" refl,
  unit_case u "Ti" refl,
  unit_case u "p" refl,
  unit_case u "Pi" refl,
)

sized-format : (n : ℕ) (unit : String) → n < 2 ^ 16 → sized (format_uint n) unit ≡ ok (n, unit)
unfolding sized
sized-format n unit h = ground (arith, parse_uint-format_uint (2 ^ 16) n h)

-- A uint16 and one of the eight units, printed one behind the other, are read back.
pub parse_capacity-format :
    (n : ℕ) (unit : String)
    → n < 2 ^ 16
    → is_unit unit ≡ true
    → parse_capacity (format_uint n ⧺ unit) ≡ ok (n, unit)
unfolding parse_capacity
parse_capacity-format n unit h u =
    let (s, e) = parse_digits-scan (format_uint n) n (parse_digits-format_uint n) in
    rw (span-append (format_uint n) unit 0 n s (is_unit-leads_digit unit u), e, u)
      (sized-format n unit h)
