-- ===== src/Utils/Capacity.antt =====
-- pkg/utils/capacity.go: ParseCapacity, `^(\d+)(m|Mi|g|Gi|t|Ti|p|Pi)$`.
pub mod RoundTrip
use discoblock.Base.{
  ℕ, ◌^◌, String, ◌≡◌, refl, Bool, true, false, ◌||◌, none, some, str_eq, if◌then◌else◌, List, [],
  ◌∷◌, any,
}
use discoblock.Kube.Exec.{Result, ok, err}
use discoblock.Text.Decimal.{is_digit, parse_uint}

pub data CapacityError : Type 0 where
  invalid_capacity invalid_size : CapacityError

-- The longest run of digits in front of a text, and the rest: the greedy `\d+`. The rest does not
-- begin with a digit, as no unit does, so no shorter run can match.
unfoldable pub span_digits : String → String × String
unfolding is_digit
span_digits String.[] = ("", "")
span_digits (String.◌∷◌ c s) =
    let (ds, rest) = span_digits s in
    if is_digit c then (String.◌∷◌ c ds, rest) else ("", String.◌∷◌ c s)

abbrev units : List String
units = "m" ∷ "Mi" ∷ "g" ∷ "Gi" ∷ "t" ∷ "Ti" ∷ "p" ∷ "Pi" ∷ []

unfoldable pub is_unit : String → Bool
is_unit s = any (str_eq s) units

unfoldable pub sized : String → String → Result CapacityError (ℕ × String)
sized ds unit = elim (parse_uint (2 ^ 16) ds) [ none ↦ err invalid_size | some n ↦ ok (n, unit) ]

unfoldable pub parse_capacity : String → Result CapacityError (ℕ × String)
parse_capacity capacity =
    let (ds, unit) = span_digits capacity in
    if str_eq ds ""
    then err invalid_capacity
    else if is_unit unit
    then sized ds unit
    else err invalid_capacity

-- The cases of capacity_test.go, and a size beyond uint16.
parse_capacity_runs :
    (parse_capacity "" ≡ err invalid_capacity)
    × (parse_capacity "Gi" ≡ err invalid_capacity)
    × (parse_capacity "500" ≡ err invalid_capacity)
    × (parse_capacity "500G" ≡ err invalid_capacity)
    × (parse_capacity "500Gi" ≡ ok (500, "Gi"))
    × (parse_capacity "65536Gi" ≡ err invalid_size)
unfolding parse_capacity span_digits is_unit sized parse_uint
parse_capacity_runs = (refl, refl, refl, refl, refl, refl)
