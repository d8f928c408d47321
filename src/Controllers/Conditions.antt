-- ===== src/Controllers/Conditions.antt =====
-- The status conditions of a DiskConfig, as PVCReconciler.Reconcile keeps them: one condition for
-- each PersistentVolumeClaim, found by its reason and by its message, the claim's name.
pub mod Delete
pub mod Upsert
use discoblock.Base.{
  ℕ, suc, ◌+◌, ◌-◌, String, Bool, true, false, ◌&&◌, not, Option, none, some, List, [], ◌∷◌, ◌++◌,
  if◌then◌else◌, str_eq, leb, set, erase_at, ◌≡◌, refl,
}
use discoblock.Kube.Objects.{Condition}

abbrev pub phase_reason : String
phase_reason = "PvcPhaseHasChanged"

-- The conditions that neither loop skips.
unfoldable pub is_about : String → Condition → Bool
is_about pvc_name c = str_eq c.reason phase_reason && str_eq c.message pvc_name

-- `toDelete`: the indices of the claim's conditions, from index `i` on
unfoldable pub to_delete : String → ℕ → List Condition → List ℕ
to_delete pvc_name i [] = []
to_delete pvc_name i (c ∷ cs) =
    let rest = to_delete pvc_name (suc i) cs in if is_about pvc_name c then i ∷ rest else rest

unfoldable pub insert_int : ℕ → List ℕ → List ℕ
insert_int a [] = a ∷ []
insert_int a (b ∷ bs) = if leb a b then a ∷ b ∷ bs else b ∷ insert_int a bs

-- `sort.Ints`
unfoldable pub sort_ints : List ℕ → List ℕ
sort_ints [] = []
sort_ints (a ∷ rest) = insert_int a (sort_ints rest)

-- `for i, d := range toDelete`, where `i` elements are gone already
unfoldable pub delete_loop : ℕ → List ℕ → List Condition → List Condition
delete_loop i [] cs = cs
delete_loop i (d ∷ ds) cs = delete_loop (suc i) ds (erase_at cs (d - i))

unfoldable pub delete_conditions : String → List Condition → List Condition
delete_conditions pvc_name cs = delete_loop 0 (sort_ints (to_delete pvc_name 0 cs)) cs

-- `toUpdate`: the first index, and `none` for -1
unfoldable pub to_update : String → ℕ → List Condition → Option ℕ
to_update pvc_name i [] = none
to_update pvc_name i (c ∷ cs) =
    let rest = to_update pvc_name (suc i) cs in if is_about pvc_name c then some i else rest

unfoldable pub write_condition : Option ℕ → Condition → List Condition → List Condition
write_condition none condition cs = cs ++ condition ∷ []
write_condition (some i) condition cs = set cs i condition

unfoldable pub upsert_condition : String → Condition → List Condition → List Condition
unfolding to_update write_condition
upsert_condition pvc_name condition cs = write_condition (to_update pvc_name 0 cs) condition cs
