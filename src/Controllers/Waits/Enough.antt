-- ===== src/Controllers/Waits/Enough.antt =====
-- controllers/pvc_controller.go: the end of the loops of createPVC.
use mathlib.Core.Path.{subst}
use discoblock.Base.{ℕ, zero, suc, ◌+◌, ◌*◌, ◌/◌, ◌≤◌, ◌∷◌, false, ◌≡◌, arith, leb}
use discoblock.Base.Int.{ℤ, pos_part}
use discoblock.Kube.Exec.{call, pure}
use discoblock.Kube.Exec.Returns.{Any}
use discoblock.Kube.Exec.After.{
  Steady, After, After-pure, After-then, After-now, After-told, After-if, After-timed,
}
use discoblock.Kube.Api.{Api, Call, History}
use discoblock.Controllers.Waits.{
  second, Polled, again, found, Waited, ready, timed_out, starved, on_polled, poll, turn, wait,
  rounds, deadline_after,
}

-- No call turns the clock back, and a timer takes at least its time.
pub record Ticks (api : Api) : Type 0 where
  pub steady : Steady api.now
  pub slept : (ns : ℕ) (h : History) → api.now h + ns ≤ api.now (Call.sleep ns ∷ h)

abbrev pub Kept : {S A : Type 0} → (S → Type 0) → (A → Type 0) → Polled S A → Type 0
Kept I Good (again s) = I s
Kept I Good (found a) = Good a

abbrev pub Settled : {S A : Type 0} → (S → Type 0) → (A → Type 0) → Waited S A → Type 0
Settled I Good (ready a) = Good a
Settled I Good (timed_out s) = I s
Settled I Good starved = ⊥

-- where nothing is kept
pub polled-Kept : {S A : Type 0} (r : Polled S A) → Kept Any Any r
polled-Kept (again s) = tt
polled-Kept (found a) = tt

module _ {R S A : Type 0} (api : Api) (ticks : Ticks api) (deadline : ℕ) (ask : S → Call)
    (judge : S → History → Polled S A) (X : Type 0) (P : R → Type 0) (I : S → Type 0)
    (Good : A → Type 0) (keeps : (s : S) → I s → (h : History) → Kept I Good (judge s h)) where
  abbrev Rest : ℕ → ℕ → Type 0
  Rest n start =
      leb deadline start ≡ false
      → (s : S) → I s
      → After api.now (start + second) X P (Settled I Good)
          (wait {R = R} api deadline ask judge n s)

  on_polled-Settled :
      (n start : ℕ) (r : Polled S A)
      → Kept I Good r
      → leb deadline start ≡ false
      → Rest n start
      → After api.now start X P
          (Settled I Good)
          (on_polled api deadline ask judge (wait {R = R} api deadline ask judge n) r)
  on_polled-Settled n start (found a) good early rest = After-pure (ready a) good
  on_polled-Settled n start (again s) i early rest =
      After-timed _ _ second _ (ticks.slept second) λ _. rest early s i

  round :
      (n t : ℕ) (s : S)
      → I s
      → ((start : ℕ) → t ≤ start → Rest n start)
      → After api.now t X P (Settled I Good) (wait {R = R} api deadline ask judge (suc n) s)
  unfolding wait
  round n t s i rest =
      let later = wait {R = R} api deadline ask judge n in
      After-now t (turn api deadline ask judge later s) λ start late.
        After-if (leb deadline start) (pure (timed_out s)) (poll api deadline ask judge later s)
          (λ _. After-pure (timed_out s) i)
          λ early.
            After-then _ (call (ask s) (judge s)) (on_polled api deadline ask judge later)
              (After-told (ask s) (judge s) ticks.steady)
              λ r told.
                on_polled-Settled n start r (subst (Kept I Good) told.1 (keeps s i told.0)) early
                  (rest start late)

  -- From a time on whose distance to the deadline is covered by the rounds, the loop settles.
  pub wait-Settled :
      (n t : ℕ) (s : S)
      → I s
      → deadline ≤ t + n * second
      → After api.now t X P (Settled I Good) (wait {R = R} api deadline ask judge (suc n) s)
  wait-Settled zero t s i enough =
      round zero t s i λ start late early s' i'. ground (arith, enough, late, early)
  wait-Settled (suc n) t s i enough =
      round (suc n) t s i λ start late early s' i'.
        wait-Settled n (start + second) s' i' (omega (arith, enough, late))

rounds_enough :
    (start t : ℕ) (timeout : ℤ)
    → start ≤ t
    → deadline_after start timeout ≤ t + suc (pos_part timeout / second) * second
rounds_enough start t timeout late = omega (arith, late)

module _ {R S A : Type 0} (api : Api) (ticks : Ticks api) (start : ℕ) (timeout : ℤ) (ask : S → Call)
    (judge : S → History → Polled S A) (X : Type 0) (P : R → Type 0) (I : S → Type 0)
    (Good : A → Type 0) (keeps : (s : S) → I s → (h : History) → Kept I Good (judge s h)) where
  -- A wait with as many rounds as its timeout has seconds, and two more, never runs out of rounds:
  -- it finds what it waits for or it meets the deadline, where the clock never goes back and timers
  -- take their time.
  pub rounds-Settled :
      (t : ℕ) (s : S)
      → start ≤ t
      → I s
      → After api.now t X P
          (Settled I Good)
          (wait {R = R} api (deadline_after start timeout) ask judge (rounds timeout) s)
  rounds-Settled t s late i =
      wait-Settled api ticks (deadline_after start timeout) ask judge X P I Good keeps
        (suc (pos_part timeout / second)) t s i (rounds_enough start t timeout late)
