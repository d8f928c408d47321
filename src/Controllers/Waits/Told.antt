-- ===== src/Controllers/Waits/Told.antt =====
-- controllers/pvc_controller.go: what the loops of createPVC come to, from what a round keeps.
use discoblock.Base.{ℕ, zero, suc, leb}
use discoblock.Kube.Exec.{pure}
use discoblock.Kube.Exec.Returns.{
  Returns, Returns-pure, Returns-then, Returns-bind, Returns-told, Returns-observe, Returns-call,
  Returns-if,
}
use mathlib.Core.Path.{subst}
use discoblock.Kube.Api.{Api, Call, History}
use discoblock.Controllers.Waits.{
  Polled, again, found, Waited, ready, timed_out, starved, on_polled, poll, wait,
}
use discoblock.Controllers.Waits.Enough.{Kept}

-- What a wait found or left, whether its rounds were enough or not.
abbrev pub Ended : {S A : Type 0} → (S → Type 0) → (A → Type 0) → Waited S A → Type 0
Ended I Good (ready a) = Good a
Ended I Good (timed_out s) = I s
Ended I Good starved = Unit

module _ {R S A : Type 0} (api : Api) (deadline : ℕ) (ask : S → Call)
    (judge : S → History → Polled S A) (X : Type 0) (P : R → Type 0) (I : S → Type 0)
    (Good : A → Type 0) (keeps : (s : S) → I s → (h : History) → Kept I Good (judge s h)) where
  abbrev Result : ℕ → S → Type 0
  Result n s = Returns X P (Ended I Good) (wait {R = R} api deadline ask judge n s)

  on_polled-Ended :
      (n : ℕ) (r : Polled S A)
      → Kept I Good r
      → ((s : S) → I s → Result n s)
      → Returns X P
          (Ended I Good)
          (on_polled api deadline ask judge (wait {R = R} api deadline ask judge n) r)
  on_polled-Ended n (found a) good later = Returns-pure (ready a) good
  on_polled-Ended n (again s) i later = Returns-bind _ _ (Returns-call _ _) λ _. later s i

  pub wait-Ended : (n : ℕ) (s : S) → I s → Result n s
  unfolding wait
  wait-Ended zero s i = Returns-pure starved tt
  wait-Ended (suc n) s i = Returns-bind _ _ (Returns-observe api.now) λ now.
      Returns-if (leb deadline now) (pure (timed_out s))
        (poll api deadline ask judge (wait {R = R} api deadline ask judge n) s)
        (λ _. Returns-pure (timed_out s) i)
        (λ _. Returns-then _ _ _ (Returns-told (ask s) (judge s)) λ r told.
          on_polled-Ended n r (subst (Kept I Good) told.1 (keeps s i told.0)) (wait-Ended n))
