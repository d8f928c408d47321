-- ===== src/Controllers/Waits/Calls.antt =====
-- controllers/pvc_controller.go: the calls of the loops of createPVC.
use discoblock.Base.{ℕ, zero, suc}
use discoblock.Kube.Exec.Emits.{Emits, emit_rules}
use discoblock.Kube.Api.{Api, Call, History}
use discoblock.Controllers.Waits.{second, Polled, again, found, on_polled, wait}

module _ {R S A : Type 0} (api : Api) (deadline : ℕ) (ask : S → Call)
    (judge : S → History → Polled S A) {P : Call → Type 0} where
  on_polled-Emits :
      (n : ℕ) (r : Polled S A)
      → P (Call.sleep second)
      → ((s : S) → Emits P (wait {R = R} api deadline ask judge n s))
      → Emits P (on_polled {R = R} api deadline ask judge (wait api deadline ask judge n) r)
  on_polled-Emits n (found a) sleeps later = search emit_rules
  on_polled-Emits n (again s) sleeps later = search (emit_rules, sleeps, later)

  -- A loop asks and sleeps.
  pub wait-Emits :
      (n : ℕ) (s : S)
      → ((s : S) → P (ask s))
      → P (Call.sleep second)
      → Emits P (wait {R = R} api deadline ask judge n s)
  unfolding wait
  wait-Emits zero s asks sleeps = search emit_rules
  wait-Emits (suc n) s asks sleeps =
      let later = λ (s' : S). wait-Emits n s' asks sleeps in
      search (emit_rules, asks, on_polled-Emits n, sleeps, later) depth 9
