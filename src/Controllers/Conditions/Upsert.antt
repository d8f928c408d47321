-- ===== src/Controllers/Conditions/Upsert.antt =====
-- controllers/pvc_controller.go: Reconcile's adding or replacing of a claim's condition.
use discoblock.Base.{
  ℕ, suc, ◌≤◌, String, true, not, Option, none, some, List, [], ◌∷◌, if◌then◌else◌, keep, length,
  ◌≡◌, refl, ◌∙◌, ap, sym, arith, Bool-cases, inl, inr,
}
use discoblock.Kube.Objects.{Condition}
use discoblock.Controllers.Conditions.{
  is_about, to_update, write_condition, upsert_condition, delete_conditions,
}
use discoblock.Controllers.Conditions.Delete.{delete_conditions-keep}

-- The conditions of the claim, and those of other claims.
abbrev pub own : String → List Condition → List Condition
own p = keep (is_about p)

abbrev pub others : String → List Condition → List Condition
others p = keep (λ c. not (is_about p c))

-- What replaces the first of the claim's conditions.
unfoldable pub replace_first : String → Condition → List Condition → List Condition
replace_first p new [] = new ∷ []
replace_first p new (c ∷ cs) =
    let rest = c ∷ replace_first p new cs in if is_about p c then new ∷ cs else rest

abbrev shift : Option ℕ → Option ℕ
shift none = none
shift (some i) = some (suc i)

to_update-suc :
    (p : String) (i : ℕ) (cs : List Condition) → to_update p (suc i) cs ≡ shift (to_update p i cs)
unfolding to_update
to_update-suc p i [] = refl
to_update-suc p i (c ∷ cs) = ground (arith, to_update-suc p (suc i) cs)

write-shift :
    (o : Option ℕ) (new c : Condition) (cs : List Condition)
    → write_condition (shift o) new (c ∷ cs) ≡ c ∷ write_condition o new cs
unfolding write_condition
write-shift none new c cs = refl
write-shift (some i) new c cs = refl

pub upsert-replace_first :
    (p : String) (new : Condition) (cs : List Condition)
    → upsert_condition p new cs ≡ replace_first p new cs
unfolding upsert_condition replace_first
upsert-replace_first p new [] = refl
upsert-replace_first p new (c ∷ cs) = elim (Bool-cases (is_about p c)) [
  | inl e ↦ rw e
  | inr e ↦
      rw (e, to_update-suc p 0 cs, write-shift (to_update p 0 cs) new c cs)
        (ap (◌∷◌ c) (unfold upsert_condition in upsert-replace_first p new cs))
]

others-replace_first :
    (p : String) (new : Condition) (cs : List Condition)
    → is_about p new ≡ true
    → others p (replace_first p new cs) ≡ others p cs
unfolding replace_first
others-replace_first p new [] h = rw h
others-replace_first p new (c ∷ cs) h = elim (Bool-cases (is_about p c)) [
  | inl e ↦ rw (e, h)
  | inr e ↦ rw (e, e) (ap (◌∷◌ c) (others-replace_first p new cs h))
]

none_left {ℓ} : {A : Type ℓ} (xs : List A) → suc (length xs) ≤ 1 → xs ≡ []
none_left [] h = refl
none_left (x ∷ xs) h = absurd (omega arith)

own-replace_first :
    (p : String) (new : Condition) (cs : List Condition)
    → is_about p new ≡ true
    → length (own p cs) ≤ 1
    → own p (replace_first p new cs) ≡ new ∷ []
unfolding replace_first
own-replace_first p new [] h one = rw h
own-replace_first p new (c ∷ cs) h one = elim (Bool-cases (is_about p c)) [
  | inl e ↦ rw (e, h) (ap (◌∷◌ new) (none_left (own p cs) (rw e at one)))
  | inr e ↦ rw (e, e) (own-replace_first p new cs h (rw e at one))
]

-- If a claim has at most one condition, it has exactly the new one afterwards, and the conditions
-- of the other claims stay as they are.
pub upsert_condition_lem :
    (p : String) (new : Condition) (cs : List Condition)
    → is_about p new ≡ true
    → length (own p cs) ≤ 1
    → (own p (upsert_condition p new cs) ≡ new ∷ [])
      × (others p (upsert_condition p new cs) ≡ others p cs)
upsert_condition_lem p new cs h one =
    rw (upsert-replace_first p new cs)
      (own-replace_first p new cs h one, others-replace_first p new cs h)

-- A claim's condition, once written and then deleted, leaves no trace.
pub delete-upsert :
    (p : String) (new : Condition) (cs : List Condition)
    → is_about p new ≡ true
    → delete_conditions p (upsert_condition p new cs) ≡ delete_conditions p cs
delete-upsert p new cs h =
    delete_conditions-keep p (upsert_condition p new cs)
    ∙ rw (upsert-replace_first p new cs) (others-replace_first p new cs h)
    ∙ sym (delete_conditions-keep p cs)
