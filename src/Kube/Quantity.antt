-- ===== src/Kube/Quantity.antt =====
-- resource.Quantity of k8s.io/apimachinery, by its text. Its operations are a parameter of the
-- code that uses them, and `IsExact` is what their documentation promises: a quantity denotes an
-- exact whole number of its smallest unit, which `Cmp` compares and `Add` adds.
use Prim.Native.Nat.{compare, Ordering}
use discoblock.Base.{◌+◌, String, ◌≡◌, Bool, true, false}
use discoblock.Base.Int.{ℤ, pos_part, neg_part}

abbrev pub Quantity : Type 0
Quantity = String

-- `cmp` is Cmp (-1, 0, 1 as an order), `add` is Add, and `cmp_zero` is CmpInt64(0).
pub record Quantities : Type 0 where
  pub cmp : Quantity → Quantity → Ordering
  pub add : Quantity → Quantity → Quantity
  pub cmp_zero : Quantity → Ordering

abbrev pub compare_ℤ : ℤ → ℤ → Ordering
compare_ℤ a b = compare (pos_part a + neg_part b) (pos_part b + neg_part a)

pub record IsExact (q : Quantities) (value : Quantity → ℤ) : Type 0 where
  pub cmp_lem : (a b : Quantity) → q.cmp a b ≡ compare_ℤ (value a) (value b)
  pub add_lem :
      (a b : Quantity)
      → pos_part (value (q.add a b)) + neg_part (value a) + neg_part (value b)
        ≡ neg_part (value (q.add a b)) + pos_part (value a) + pos_part (value b)
  pub cmp_zero_lem :
      (a : Quantity) → q.cmp_zero a ≡ compare (pos_part (value a)) (neg_part (value a))

-- `a.Cmp(b) == 1`
abbrev pub exceeds : Quantities → Quantity → Quantity → Bool
exceeds q a b = elim (q.cmp a b) [ Ordering.gt ↦ true | _ ↦ false ]

-- `a.Cmp(b) == -1`
abbrev pub below : Quantities → Quantity → Quantity → Bool
below q a b = elim (q.cmp a b) [ Ordering.lt ↦ true | _ ↦ false ]

-- `a.CmpInt64(0) != 0`
abbrev pub is_set : Quantities → Quantity → Bool
is_set q a = elim (q.cmp_zero a) [ Ordering.eq ↦ false | _ ↦ true ]
