-- ===== src/Controllers/Create/Waiting.antt =====
-- controllers/pvc_controller.go: the waits of createPVC, and the mounting after them, come to an end.
use discoblock.Base.{ℕ, ◌≤◌, String, Option, none, some, List, ◌≡◌, refl, arith, str_eq}
use discoblock.Base.Int.{ℤ}
use discoblock.Kube.Objects.{DiskConfig, Pvc, Pod, PersistentVolume, VolumeAttachment}
use discoblock.Kube.Exec.{Result, ok, err}
use discoblock.Kube.Exec.Returns.{Any}
use discoblock.Kube.Exec.After.{After, after_rules, After-then, After-if, After-pure, After-crash}
use discoblock.Kube.Api.{Api, Action, History}
use discoblock.Controllers.Volumes.{End, only_attachment}
use discoblock.Controllers.Volumes.Rules.{Finished}
use discoblock.Controllers.Volumes.Timed.{give_up-After, start_job-After}
use discoblock.Controllers.Waits.{Waited, ready, timed_out, starved, deadline_after}
use discoblock.Controllers.Waits.Enough.{Ticks, Kept, Settled, polled-Kept, rounds-Settled}
use discoblock.Controllers.Create.Mounting.{
  ask_claim, hear_claim, ask_volume, hear_volume, ask_attachment, hear_attachment, judge_attachment,
  Round, empty_volume, Provisioned, Attached, on_claim, on_volume, on_attachment, wait_claim,
  wait_volume, wait_attachment, mount_claim,
}

-- The server lists none, or more than one, attachment of a volume, or fails to list them.
abbrev pub AttachmentUnclear : Api → Type 0
AttachmentUnclear api =
    (h : History) × (name e : String) × (only_attachment (api.list_volume_attachments h name)
      ≡ err e)

module _ (other : String → ℤ → String) (api : Api) (ticks : Ticks api) (config : DiskConfig)
    (pod : Pod) where
  abbrev Cause : Type 0
  Cause = AttachmentUnclear api

  module _ (t start : ℕ) (late : start ≤ t) where
    abbrev deadline : ℕ
    deadline = deadline_after start config.spec.policy.cool_down

    abbrev Timed : {A : Type 0} → Action End A → Type 0
    Timed m = After api.now t Cause Finished Any m

    on_claim-After :
        (w : Waited (Round Pvc) Pvc)
        → Settled Any Any w
        → Timed (on_claim other api config pod deadline w)
    on_claim-After (ready pvc) k = search after_rules
    on_claim-After (timed_out (pvc, e)) k = give_up-After api ticks.steady _
    on_claim-After starved k = elim k [ ]

    wait_claim-After : (pvc : Pvc) → Timed (wait_claim other api config pod deadline pvc)
    unfolding wait_claim
    wait_claim-After pvc =
        After-then (Settled Any Any) _ (on_claim other api config pod deadline)
          (rounds-Settled api ticks start config.spec.policy.cool_down (ask_claim api)
            (hear_claim api) Cause Finished Any Any (λ s _ h. polled-Kept _) t (pvc, none) late tt)
          λ w k. on_claim-After w k

    on_volume-After :
        (w : Waited (Round PersistentVolume) Provisioned)
        → Settled Any Any w
        → Timed (on_volume other api config pod deadline w)
    on_volume-After (ready v) k = search after_rules
    on_volume-After (timed_out (pv, e)) k = give_up-After api ticks.steady _
    on_volume-After starved k = elim k [ ]

    wait_volume-After : (pvc : Pvc) → Timed (wait_volume other api config pod deadline pvc)
    unfolding wait_volume
    wait_volume-After pvc =
        After-then (Settled Any Any) _ (on_volume other api config pod deadline)
          (rounds-Settled api ticks start config.spec.policy.cool_down (ask_volume api pvc)
            (hear_volume api pvc) Cause Finished Any Any (λ s _ h. polled-Kept _) t
            (empty_volume, none) late tt)
          λ w k. on_volume-After w k

    -- Where the last round left the nil pointer, the server listed no single attachment.
    abbrev Known : Round (Option VolumeAttachment) → Type 0
    Known (none, e) = Cause
    Known (some va, e) = Unit

    judge_attachment-Known :
        (key name : String) (h : History) (r : Result String VolumeAttachment)
        → only_attachment (api.list_volume_attachments h name) ≡ r
        → Kept Known Any (judge_attachment key r)
    judge_attachment-Known key name h (ok va) told = ground arith
    judge_attachment-Known key name h (err e) told = (h, name, e, told)

    on_attachment-After :
        (w : Waited (Round (Option VolumeAttachment)) Attached)
        → Settled Known Any w
        → Timed (on_attachment other api config pod deadline w)
    on_attachment-After (ready a) k = search after_rules
    on_attachment-After (timed_out (none, e)) k = After-crash k
    on_attachment-After (timed_out (some va, e)) k = give_up-After api ticks.steady _
    on_attachment-After starved k = elim k [ ]

    wait_attachment-After :
        (pvc : Pvc) (va : VolumeAttachment) (key : String)
        → Timed (wait_attachment other api config pod deadline pvc va key)
    unfolding wait_attachment
    wait_attachment-After pvc va key =
        After-if (str_eq key "") _ _ (λ _. After-pure (va, "") tt)
          (λ _.
            After-then (Settled Known Any) _ (on_attachment other api config pod deadline)
              (rounds-Settled api ticks start config.spec.policy.cool_down (ask_attachment api pvc)
                (hear_attachment api pvc key) Cause Finished Known Any
                (λ s _ h. judge_attachment-Known key pvc.volume_name h _ refl) t (some va, none)
                late tt)
              λ w k. on_attachment-After w k)

    pub mount_claim-After :
        (parent created : Pvc) (container_ids : List String) (node_name : String) (index : ℤ)
        (provisioner wait_for_meta : String)
        → Timed (
            mount_claim other api config pod deadline parent created container_ids node_name index
              provisioner wait_for_meta)
    unfolding mount_claim
    mount_claim-After parent created container_ids node_name index provisioner wait_for_meta =
        search
          (
            after_rules,
            ticks.steady,
            give_up-After api ticks.steady,
            wait_claim-After,
            wait_volume-After,
            wait_attachment-After,
            start_job-After api ticks.steady,
          )
          depth 12
