-- ===== src/Controllers/Loop.antt =====
-- controllers/pvc_controller.go: the goroutine of SetupWithManager that runs MonitorVolumes by a ticker.
-- The work that a round starts in goroutines is run after the round, the first started first.
pub mod Started
pub mod Others
pub mod Full
pub mod Writes
use discoblock.Base.{List, [], ◌∷◌}
use discoblock.Kube.Exec.{Exec, Flow, next, done, panic, pure, detached, ◌>>=◌, ◌>>◌}
use discoblock.Kube.Quantity.{Quantities}
use discoblock.Kube.Api.{Api, Action}
use discoblock.Controllers.Volumes.{End}
use discoblock.Controllers.Rounds.{Work, Watch, Round, monitor_volumes, run_work}

-- What `select` received: a value of closeChan, or the ticker with what the round meets.
pub data Wake (F : Type 0) : Type 0 where
  close : Wake F
  tick : Round F → Wake F

-- The only return of MonitorVolumes is before anything is started.
abbrev pub resume : Watch → Flow End Watch → Flow End Watch
resume w (next v) = next v
resume w (done r) = next w
resume w panic = panic

-- a round starts with nothing started
abbrev pub fresh : Watch → Watch
fresh w = record w { started = [] }

module _ {F : Type 0} (q : Quantities) (api : Api) where
  unfoldable pub monitor_round : Round F → Watch → Action End Watch
  unfolding monitor_volumes
  monitor_round round w h =
      let (r, h') = monitor_volumes q api round (fresh w) h in (resume (fresh w) r, h')

  unfoldable pub run_all : Round F → List Work → Action End (Unit {0})
  unfolding detached run_work ◌>>=◌
  run_all round [] = pure tt
  run_all round (work ∷ earlier) =
      run_all round earlier >>= λ _. detached (run_work q api round work)

  unfoldable pub monitor_loop : List (Wake F) → Watch → Action End (Unit {0})
  unfolding monitor_round run_all
  monitor_loop [] w = pure tt
  monitor_loop (close ∷ wakes) w = pure tt
  monitor_loop (tick round ∷ wakes) w = do
    v ← monitor_round round w
    run_all round v.started
    monitor_loop wakes v
