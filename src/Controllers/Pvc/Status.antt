-- ===== src/Controllers/Pvc/Status.antt =====
-- controllers/pvc_controller.go: what Reconcile writes into a DiskConfig's status.
use discoblock.Base.{
  ℕ, ◌≤◌, String, Bool, true, false, Option, none, some, List, ◌∷◌, [], length, arith, ◌≡◌, ◌≢◌,
  refl, sym, str_eq, eq_iff, eq_refl, Bool-cases, inl, inr,
}
use mathlib.Core.Path.{subst}
use discoblock.Kube.Objects.{Condition, DiskConfig, Pvc}
use discoblock.Kube.Exec.{ok}
use discoblock.Kube.Exec.Emits.{Emits, emit_rules, Emits-answer, Emits-bind}
use discoblock.Kube.Api.{Api, Call}
use discoblock.Controllers.Conditions.{phase_reason, is_about, delete_conditions, upsert_condition}
use discoblock.Controllers.Conditions.Delete.{delete_conditions-keep}
use discoblock.Controllers.Conditions.Upsert.{
  own, others, replace_first, upsert-replace_first, upsert_condition_lem,
}
use discoblock.Controllers.Pvc.{on_deletion, condition_of, next_conditions, reconcile}

-- No claim has two conditions.
abbrev pub IsUnique : List Condition → Type 0
IsUnique cs = (q : String) → length (own q cs) ≤ 1

own-others-le :
    (p q : String) (cs : List Condition) → length (own q (others p cs)) ≤ length (own q cs)
own-others-le p q [] = omega arith
own-others-le p q (c ∷ cs) = ground (arith, own-others-le p q cs)

about_one : (p q : String) (c : Condition) → p ≢ q → is_about p c ≡ true → is_about q c ≡ false
unfolding is_about
about_one p q c ne h = ground (arith, eq_iff c.message p, eq_iff c.message q)

own-replace_first_ne :
    (p q : String) (new : Condition) (cs : List Condition)
    → p ≢ q
    → is_about p new ≡ true
    → own q (replace_first p new cs) ≡ own q cs
unfolding replace_first
own-replace_first_ne p q new [] ne h = ground (arith, about_one p q new ne h)
own-replace_first_ne p q new (c ∷ cs) ne h =
    ground (arith, about_one p q new ne h, about_one p q c ne, own-replace_first_ne p q new cs ne h)

condition_of-is_about : (now : ℕ) (pvc : Pvc) → is_about pvc.name (condition_of now pvc) ≡ true
unfolding is_about condition_of
condition_of-is_about now pvc = rw (eq_refl phase_reason, eq_refl pvc.name)

upsert-IsUnique :
    (p : String) (new : Condition) (cs : List Condition)
    → is_about p new ≡ true
    → IsUnique cs
    → IsUnique (upsert_condition p new cs)
upsert-IsUnique p new cs h u q = elim (Bool-cases (str_eq p q)) [
  | inl e ↦ rw (← (eq_iff p q).0 e, (upsert_condition_lem p new cs h (u p)).0) (omega arith)
  | inr e ↦
      rw
        (
          upsert-replace_first p new cs,
          own-replace_first_ne p q new cs (λ pq. ground (arith, eq_iff p q)) h,
        )
        (u q)
]

delete-IsUnique :
    (p : String) (cs : List Condition) → IsUnique cs → IsUnique (delete_conditions p cs)
delete-IsUnique p cs u q =
    rw (delete_conditions-keep p cs) (omega (arith, own-others-le p q cs, u q))

on_deletion-IsUnique :
    (now : ℕ) (pvc : Pvc) (cs : List Condition) (d : Option ℕ)
    → pvc.deleted ≡ d
    → IsUnique cs
    → IsUnique (next_conditions now pvc cs)
unfolding next_conditions
on_deletion-IsUnique now pvc cs none e u =
    subst
      (λ d. IsUnique (
        on_deletion d (delete_conditions pvc.name cs)
          (upsert_condition pvc.name (condition_of now pvc) cs)))
      (sym e) (upsert-IsUnique pvc.name (condition_of now pvc) cs (condition_of-is_about now pvc) u)
on_deletion-IsUnique now pvc cs (some t) e u =
    subst
      (λ d. IsUnique (
        on_deletion d (delete_conditions pvc.name cs)
          (upsert_condition pvc.name (condition_of now pvc) cs)))
      (sym e) (delete-IsUnique pvc.name cs u)

-- Both branches of the reconciler keep at most one condition for each claim.
next_conditions-IsUnique :
    (now : ℕ) (pvc : Pvc) (cs : List Condition)
    → IsUnique cs
    → IsUnique (next_conditions now pvc cs)
next_conditions-IsUnique now pvc cs = on_deletion-IsUnique now pvc cs pvc.deleted refl

-- A status update has at most one condition for each claim.
abbrev pub WritesUnique : Call → Type 0
WritesUnique (Call.update_disk_config_status config) = IsUnique config.conditions
WritesUnique _ = Unit

-- If the DiskConfigs on the server have at most one condition for each claim, so has every status
-- that a reconciliation writes, whatever the server answers.
pub reconcile-IsUnique :
    (api : Api) (locked : Bool) (name namespace : String)
    → ((h : List Call) (ns n : String) (config : DiskConfig)
        → api.get_disk_config h ns n ≡ ok config
        → IsUnique config.conditions)
    → Emits WritesUnique (reconcile api locked name namespace)
unfolding reconcile
reconcile-IsUnique api locked name namespace unique = Emits-bind _ _ (search emit_rules) λ _.
    Emits-bind _ _ (search emit_rules) λ pvc. Emits-answer _ _ _ _ tt λ h config e.
      let fits : (now : ℕ) → IsUnique (next_conditions now pvc config.conditions) =
        λ now. next_conditions-IsUnique now pvc config.conditions (unique h _ _ config e) in
      search (emit_rules, fits)
