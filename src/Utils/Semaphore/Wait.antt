-- ===== src/Utils/Semaphore/Wait.antt =====
-- pkg/utils/semaphore.go, WaitForSemaphore: the loop that asks the semaphore until it gives a slot
-- or the context is done. The attempts are numbered: `is_done n` is whether ctx.Done() is ready
-- before attempt n, and `sem n` is the `unlock` that attempt n got, if it got one.
use discoblock.Base.{
  ℕ, zero, suc, ◌+◌, ◌-◌, ◌<◌, ◌≡◌, refl, ap, ◌∙◌, Bool, true, false, String, ◌⊎◌, inl, inr, arith,
  Option, none, some,
}
use mathlib.Core.Path.{subst}

-- One pass of the loop: `retry` is the passes that follow. The `default` case of `select` is taken
-- only when the context is not done.
unfoldable pub attempt : {A : Type 0} → Bool → Option A → Option (String ⊎ A) → Option (String ⊎ A)
attempt true unlock retry = some (inl "context deadline")
attempt false none retry = retry
attempt false (some unlock) retry = some (inr unlock)

-- The loop on fuel, from attempt n on; `none` is a loop that has used its fuel.
unfoldable pub wait_for_semaphore :
    {A : Type 0} → (ℕ → Bool) → (ℕ → Option A) → ℕ → ℕ → Option (String ⊎ A)
wait_for_semaphore is_done sem zero n = none
wait_for_semaphore is_done sem (suc fuel) n =
    attempt (is_done n) (sem n) (wait_for_semaphore is_done sem fuel (n + 1))

module _ {A : Type 0} (is_done : ℕ → Bool) (sem : ℕ → Option A) where
  -- The attempts from n on, k of them, get nothing, and the context is not done before any of them.
  abbrev pub IsIdle : ℕ → ℕ → Type 0
  IsIdle n k = (i : ℕ) → i < k → (is_done (n + i) ≡ false) × (sem (n + i) ≡ none)

  attempt-retry :
      (d : Bool) (o : Option A) (retry : Option (String ⊎ A))
      → (d ≡ false) × (o ≡ none)
      → attempt d o retry ≡ retry
  unfolding attempt
  attempt-retry true o retry h = ground arith
  attempt-retry false none retry h = refl
  attempt-retry false (some x) retry h = ground arith

  wait_for_semaphore-cong :
      (a b n m : ℕ)
      → a ≡ b
      → n ≡ m
      → wait_for_semaphore is_done sem a n ≡ wait_for_semaphore is_done sem b m
  wait_for_semaphore-cong a b n m p q = (cc)

  attempt-locked :
      (d : Bool) (o : Option A) (unlock : A) (retry : Option (String ⊎ A))
      → d ≡ false
      → o ≡ some unlock
      → attempt d o retry ≡ some (inr unlock)
  unfolding attempt
  attempt-locked true o unlock retry p q = ground arith
  attempt-locked false none unlock retry p q = ground arith
  attempt-locked false (some x) unlock retry p q = ground arith

  IsIdle-later : (k n : ℕ) → IsIdle n (suc k) → IsIdle (n + 1) k
  IsIdle-later k n h i q =
      subst (λ j. (is_done j ≡ false) × (sem j ≡ none)) (omega arith) (h (i + 1) (omega arith))

  IsIdle-first : (k n : ℕ) → IsIdle n (suc k) → (is_done n ≡ false) × (sem n ≡ none)
  IsIdle-first k n h =
      subst (λ j. (is_done j ≡ false) × (sem j ≡ none)) (omega arith) (h 0 (omega arith))

  -- Attempts that get nothing only use fuel.
  wait_for_semaphore-IsIdle :
      (k fuel n : ℕ)
      → IsIdle n k
      → wait_for_semaphore is_done sem (k + fuel) n ≡ wait_for_semaphore is_done sem fuel (n + k)
  unfolding wait_for_semaphore
  wait_for_semaphore-IsIdle zero fuel n h =
      wait_for_semaphore-cong (0 + fuel) fuel n (n + 0) (omega arith) (omega arith)
  wait_for_semaphore-IsIdle (suc k) fuel n h =
      wait_for_semaphore-cong (suc k + fuel) (suc (k + fuel)) n n (omega arith) refl
      ∙ attempt-retry (is_done n) (sem n) (wait_for_semaphore is_done sem (k + fuel) (n + 1))
          (IsIdle-first k n h)
      ∙ wait_for_semaphore-IsIdle k fuel (n + 1) (IsIdle-later k n h)
      ∙ wait_for_semaphore-cong fuel fuel (n + 1 + k) (n + suc k) refl (omega arith)

  -- With fuel for it, the loop is at attempt k after k attempts that got nothing.
  wait_for_semaphore-reaches :
      (k fuel : ℕ)
      → k < fuel
      → IsIdle 0 k
      → wait_for_semaphore is_done sem fuel 0
        ≡ wait_for_semaphore is_done sem (suc (fuel - suc k)) k
  wait_for_semaphore-reaches k fuel q h =
      wait_for_semaphore-cong fuel (k + suc (fuel - suc k)) 0 0 (omega arith) refl
      ∙ wait_for_semaphore-IsIdle k (suc (fuel - suc k)) 0 h
      ∙ wait_for_semaphore-cong (suc (fuel - suc k)) (suc (fuel - suc k)) (0 + k) k refl
          (omega arith)

  -- The loop, given fuel for it, ends with the first attempt before which the context is done or
  -- that gets a slot: with the error where the context is done, also if that attempt would get a
  -- slot, and else with the slot.
  wait_for_semaphore_first :
      (k fuel : ℕ)
      → k < fuel
      → IsIdle 0 k
      → (is_done k ≡ true → wait_for_semaphore is_done sem fuel 0 ≡ some (inl "context deadline"))
        × ((unlock : A)
            → is_done k ≡ false
            → sem k ≡ some unlock
            → wait_for_semaphore is_done sem fuel 0 ≡ some (inr unlock))
  unfolding wait_for_semaphore attempt
  wait_for_semaphore_first k fuel q h = (
    (λ d.
        wait_for_semaphore-reaches k fuel q h
        ∙ ap (λ b. attempt b (sem k) (wait_for_semaphore is_done sem (fuel - suc k) (k + 1))) d),
    (λ unlock d o.
        wait_for_semaphore-reaches k fuel q h
        ∙ attempt-locked (is_done k) (sem k) unlock
            (wait_for_semaphore is_done sem (fuel - suc k) (k + 1)) d o),
  )
