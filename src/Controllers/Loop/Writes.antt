-- ===== src/Controllers/Loop/Writes.antt =====
-- controllers/pvc_controller.go: the rounds of the monitor and the work that they start only add calls.
use discoblock.Base.{List, [], ◌∷◌}
use discoblock.Kube.Quantity.{Quantities}
use discoblock.Kube.Exec.Returns.{Any}
use discoblock.Kube.Exec.Emits.{Emits, Emits-pure, Emits-bind, Emits-detached}
use discoblock.Kube.Api.{Api}
use discoblock.Controllers.Waits.Enough.{Ticks}
use discoblock.Controllers.Rounds.{Work, Watch, Round}
use discoblock.Controllers.Rounds.Calls.{Watches, monitor_volumes-Emits}
use discoblock.Controllers.Loop.{Wake, close, tick, fresh, monitor_round, run_all, monitor_loop}
use discoblock.Controllers.Loop.Started.{run_work-Emits}

watches : Watches Any
watches = record {
  reads = record { event = λ _. tt; class = λ _. tt; attachments = λ _. tt; wait_meta = λ _. tt };
  configs = tt;
  claims = λ _ _ _. tt;
  pods = λ _ _ _. tt;
  info = λ _ _. tt;
}

module _ {F : Type 0} (q : Quantities) (api : Api) (ticks : Ticks api) where
  run_all-Emits : (round : Round F) (works : List Work) → Emits Any (run_all q api round works)
  unfolding run_all
  run_all-Emits round [] = Emits-pure tt
  run_all-Emits round (work ∷ earlier) =
      Emits-bind _ _ (run_all-Emits round earlier)
        λ _. Emits-detached _ (run_work-Emits q api ticks round work)

  monitor_round-Emits : (round : Round F) (w : Watch) → Emits Any (monitor_round q api round w)
  unfolding monitor_round
  monitor_round-Emits round w = record {
    at = λ h. (monitor_volumes-Emits watches q api round (fresh w)).at h;
  }

  pub monitor_loop-Emits :
      (wakes : List (Wake F)) (w : Watch) → Emits Any (monitor_loop q api wakes w)
  unfolding monitor_loop
  monitor_loop-Emits [] w = Emits-pure tt
  monitor_loop-Emits (close ∷ wakes) w = Emits-pure tt
  monitor_loop-Emits (tick round ∷ wakes) w =
      Emits-bind _ _ (monitor_round-Emits round w)
        λ v. Emits-bind _ _ (run_all-Emits round v.started) λ _. monitor_loop-Emits wakes v
