-- ===== src/Examples/Volumes.antt =====
-- controllers/pvc_controller.go and pkg/utils/kube.go: resizePVC, createPVC and the host jobs at an API
-- server with one object of each kind, whose clock goes on by its timers.
use discoblock.Base.{ℕ, ◌+◌, none, [], ◌∷◌, arith}
use discoblock.Base.Int.{pos}
use discoblock.Kube.Exec.Emits.{Emits}
use discoblock.Kube.Exec.Returns.{Any, Ends}
use discoblock.Kube.Exec.After.{After}
use discoblock.Kube.Api.{Api, Call, History}
use discoblock.Kube.Objects.{Pvc}
use discoblock.Controllers.Volumes.{End}
use discoblock.Controllers.Volumes.Rules.{Finished}
use discoblock.Controllers.Waits.{wait, deadline_after, rounds}
use discoblock.Controllers.Waits.Enough.{Ticks, Settled, polled-Kept, rounds-Settled}
use discoblock.Controllers.Resize.{resize_pvc}
use discoblock.Controllers.Resize.Effects.{Resizes, resize_pvc-Resizes}
use discoblock.Controllers.Create.{create_pvc}
use discoblock.Controllers.Create.Mounting.{ask_claim, hear_claim}
use discoblock.Controllers.Create.Ends.{create_pvc-Ends}
use discoblock.Controllers.Create.Waiting.{AttachmentUnclear}
use discoblock.Examples.World.{world, config, pod, pvc}

abbrev pub spent : Call → ℕ
spent (Call.sleep ns) = ns
spent _ = 0

abbrev pub clock : History → ℕ
clock [] = 7
clock (c ∷ h) = clock h + spent c

abbrev ticking : Api
ticking = record world { now = clock }

ticking-Ticks : Ticks ticking
ticking-Ticks = record {
  steady = record { step = λ c h. omega arith };
  slept = λ ns h. omega arith;
}

abbrev child : Pvc
child = record pvc { meta = record (pvc.meta) { labels = ("discoblocks-parent", "pvc-0") ∷ [] } }

resize_pvc-Resizes_example :
    Emits (Resizes "III" child) (resize_pvc world config pod "III" child "host-1")
resize_pvc-Resizes_example = resize_pvc-Resizes world config pod "III" child "host-1"

rounds-Settled_example : After {R = End} ticking.now 7 ⊥ Finished (Settled Any Any) (
    wait ticking
      (deadline_after 7 (pos 2000000000))
      (ask_claim ticking)
      (hear_claim ticking)
      (rounds (pos 2000000000))
      (pvc, none))
rounds-Settled_example =
    rounds-Settled ticking ticking-Ticks 7 (pos 2000000000) (ask_claim ticking) (hear_claim ticking)
      ⊥ Finished Any Any (λ s _ h. polled-Kept (hear_claim ticking s h)) 7 (pvc, none) (omega arith)
      tt

create_pvc-Ends_example :
    Ends
      (AttachmentUnclear ticking)
      Finished
      Any
      (create_pvc (λ p i. p) ticking config pod pvc ("c-1" ∷ []) "host-1" (pos 1) []).0
create_pvc-Ends_example =
    create_pvc-Ends (λ p i. p) ticking ticking-Ticks config pod pvc ("c-1" ∷ []) "host-1" (pos 1) []
