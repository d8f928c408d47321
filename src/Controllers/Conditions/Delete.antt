-- ===== src/Controllers/Conditions/Delete.antt =====
-- controllers/pvc_controller.go: the deletion loop of Reconcile against a filter.
use discoblock.Base.{
  ℕ, suc, ◌+◌, ◌-◌, ◌≤◌, String, not, List, [], ◌∷◌, ◌++◌, erase_at, keep, All, All-map, length,
  length-append, ◌≡◌, refl, ◌∙◌, ap, arith, Bool-cases, inl, inr,
}
use mathlib.Core.List.{append_assoc}
use discoblock.Kube.Objects.{Condition}
use discoblock.Controllers.Conditions.{
  is_about, to_delete, insert_int, sort_ints, delete_loop, delete_conditions,
}

to_delete-ge : (p : String) (i : ℕ) (cs : List Condition) → All (λ d. i ≤ d) (to_delete p i cs)
unfolding to_delete
to_delete-ge p i [] = tt
to_delete-ge p i (c ∷ cs) =
    let later : All (λ d. i ≤ d) (to_delete p (suc i) cs) =
      All-map (λ d h. omega arith) (to_delete p (suc i) cs) (to_delete-ge p (suc i) cs) in
    elim (Bool-cases (is_about p c)) [ inl e ↦ rw e (omega arith, later) | inr e ↦ rw e later ]

insert_int-least : (a : ℕ) (ds : List ℕ) → All (λ d. a ≤ d) ds → insert_int a ds ≡ a ∷ ds
unfolding insert_int
insert_int-least a [] h = refl
insert_int-least a (d ∷ ds) h = ground arith

sort_ints-to_delete :
    (p : String) (i : ℕ) (cs : List Condition) → sort_ints (to_delete p i cs) ≡ to_delete p i cs
unfolding sort_ints to_delete
sort_ints-to_delete p i [] = refl
sort_ints-to_delete p i (c ∷ cs) =
    let later : All (λ d. i ≤ d) (to_delete p (suc i) cs) =
      All-map (λ d h. omega arith) (to_delete p (suc i) cs) (to_delete-ge p (suc i) cs) in
    elim (Bool-cases (is_about p c)) [
      | inl e ↦ rw (e, sort_ints-to_delete p (suc i) cs) (insert_int-least i _ later)
      | inr e ↦ rw e (sort_ints-to_delete p (suc i) cs)
    ]

erase_at-append :
    (done : List Condition) (c : Condition) (cs : List Condition)
    → erase_at (done ++ c ∷ cs) (length done) ≡ done ++ cs
erase_at-append [] c cs = refl
erase_at-append (d ∷ done) c cs = ap (◌∷◌ d) (erase_at-append done c cs)

-- `done` has been passed: `i` elements before it are gone.
delete_loop-keep :
    (p : String) (i : ℕ) (done cs : List Condition)
    → delete_loop i (to_delete p (length done + i) cs) (done ++ cs)
      ≡ done ++ keep (λ c. not (is_about p c)) cs
unfolding delete_loop to_delete
delete_loop-keep p i done [] = refl
delete_loop-keep p i done (c ∷ cs) = elim (Bool-cases (is_about p c)) [
  | inl e ↦ rw e (
      let gone : length done + i - i ≡ length done = omega arith in
      let step : suc (length done + i) ≡ length done + suc i = omega arith in
      ap
        (λ n.
          delete_loop (suc i) (to_delete p (suc (length done + i)) cs)
            (erase_at (done ++ c ∷ cs) n))
        gone
      ∙ ap (delete_loop (suc i) (to_delete p (suc (length done + i)) cs))
          (erase_at-append done c cs)
      ∙ ap (λ n. delete_loop (suc i) (to_delete p n cs) (done ++ cs)) step
      ∙ delete_loop-keep p (suc i) done cs)
  | inr e ↦ rw e (
      let step : length (done ++ c ∷ []) + i ≡ suc (length done + i) =
        omega (arith, length-append done (c ∷ [])) in
      rw
        (
          append_assoc done (c ∷ []) cs,
          append_assoc done (c ∷ []) (keep (λ d. not (is_about p d)) cs),
          step,
        )
        at (delete_loop-keep p i (done ++ c ∷ []) cs))
]

-- Deleting by the collected indices leaves exactly the conditions of other claims, in their order.
pub delete_conditions-keep :
    (p : String) (cs : List Condition) → delete_conditions p cs ≡ keep (λ c. not (is_about p c)) cs
unfolding delete_conditions
delete_conditions-keep p cs = rw (sort_ints-to_delete p 0 cs) (delete_loop-keep p 0 [] cs)
