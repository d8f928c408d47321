-- ===== src/Controllers/Create/Mounting.antt =====
-- controllers/pvc_controller.go: createPVC from the creation of the claim on: the waits for its volume
-- and for the attachment, and the job that mounts it.
use discoblock.Base.{
  ℕ, String, ◌⧺◌, true, false, not, ◌&&◌, Option, none, some, List, [], ◌∷◌, if◌then◌else◌, label,
  str_eq,
}
use discoblock.Base.Int.{ℤ}
use discoblock.Kube.Objects.{
  Meta, DiskConfig, Pvc, Pod, PersistentVolume, VolumeAttachment, CsiSource, OwnerReference,
  empty_meta,
}
use discoblock.Kube.Exec.{
  Result, ok, err, pure, return, crash, require, attempt, observe, ◌>>=◌, ◌>>◌,
}
use discoblock.Kube.Api.{Api, Action, ApiError, Call, History, message}
use discoblock.Utils.Names.{render_resource_name}
use discoblock.Utils.Mount.{render_mount_point}
use discoblock.Utils.HostJobs.{render_mount_job}
use discoblock.Controllers.Volumes.{
  End, finished, out_of_fuel, monitor_event, give_up, only_attachment, driver_failed, start_job,
}
use discoblock.Controllers.Waits.{
  Polled, again, found, Waited, ready, timed_out, starved, wait, rounds, last_error,
}

-- An object as the last round left it, and the error of that round.
abbrev pub Round : Type 0 → Type 0
Round A = A × Option String

abbrev pub judge_claim : Round Pvc → Result ApiError Pvc → Polled (Round Pvc) Pvc
judge_claim (old, _) (ok pvc) = if str_eq pvc.volume_name "" then again (pvc, none) else found pvc
judge_claim (old, _) (err e) = again (old, some (message e))

-- `&corev1.PersistentVolume{}`
abbrev pub empty_volume : PersistentVolume
empty_volume = record { meta = empty_meta; csi = none }

abbrev pub Provisioned : Type 0
Provisioned = PersistentVolume × CsiSource

abbrev judge_csi : PersistentVolume → Option CsiSource → Polled (Round PersistentVolume) Provisioned
judge_csi pv none = again (pv, none)
judge_csi pv (some csi) = if str_eq csi.volume_handle "" then again (pv, none) else found (pv, csi)

abbrev pub judge_volume :
    Round PersistentVolume
    → Result ApiError PersistentVolume
    → Polled (Round PersistentVolume) Provisioned
judge_volume (old, _) (ok pv) = judge_csi pv pv.csi
judge_volume (old, _) (err e) = again (old, some (message e))

-- The attachment with what stands under the key.
abbrev pub Attached : Type 0
Attached = VolumeAttachment × String

-- A list that does not give one attachment leaves the nil pointer behind.
abbrev pub judge_attachment :
    String → Result String VolumeAttachment → Polled (Round (Option VolumeAttachment)) Attached
judge_attachment key (ok va) =
    if va.attached && not (str_eq (label va.attachment_metadata key) "")
    then found (va, label va.attachment_metadata key)
    else again (some va, none)
judge_attachment key (err e) = again (none, some e)

abbrev pub attachment_of : String → Pod → String → String → String → VolumeAttachment
attachment_of name pod provisioner volume_name node_name = record {
  meta = record empty_meta {
    name = name;
    owners =
        record { api_version = pod.api_version; kind = pod.kind; name = pod.name; uid = pod.uid }
        ∷ [];
  };
  attacher = provisioner;
  persistent_volume_name = some volume_name;
  node_name = node_name;
  attached = false;
  attachment_metadata = [];
}

-- the owner of the mount job: the kind of the parent, the name of the claim
abbrev pub job_owner : Pvc → Pvc → OwnerReference
job_owner parent pvc = record {
  api_version = parent.api_version;
  kind = parent.kind;
  name = pvc.name;
  uid = pvc.uid;
}

-- the call and the answer of a round of each wait
module _ (api : Api) where
  abbrev pub ask_claim : Round Pvc → Call
  ask_claim (pvc, e) = Call.get_pvc pvc.namespace pvc.name

  abbrev pub hear_claim : Round Pvc → History → Polled (Round Pvc) Pvc
  hear_claim (pvc, e) h = judge_claim (pvc, e) (api.get_pvc h pvc.namespace pvc.name)

  abbrev pub ask_volume : Pvc → Round PersistentVolume → Call
  ask_volume pvc s = Call.get_pv pvc.volume_name

  abbrev pub hear_volume :
      Pvc → Round PersistentVolume → History → Polled (Round PersistentVolume) Provisioned
  hear_volume pvc s h = judge_volume s (api.get_pv h pvc.volume_name)

  abbrev pub ask_attachment : Pvc → Round (Option VolumeAttachment) → Call
  ask_attachment pvc s = Call.list_volume_attachments pvc.volume_name

  abbrev pub hear_attachment :
      Pvc
      → String
      → Round (Option VolumeAttachment)
      → History
      → Polled (Round (Option VolumeAttachment)) Attached
  hear_attachment pvc key s h =
      judge_attachment key (only_attachment (api.list_volume_attachments h pvc.volume_name))

-- `other` is what Sprintf prints for patterns with other verbs; `deadline` is that of waitCtx.
module _ (other : String → ℤ → String) (api : Api) (config : DiskConfig) (pod : Pod)
    (deadline : ℕ) where
  abbrev pub fuel : ℕ
  fuel = rounds config.spec.policy.cool_down

  -- How a wait that found nothing ends.
  abbrev too_late : {A : Type 0} → String → Meta → Option String → Action End A
  too_late what meta e = give_up api (
      monitor_event true pod (what ⧺ " wait timeout for " ⧺ config.name ⧺ ": " ⧺ meta.name)
        (last_error e) meta)

  abbrev pub on_claim : Waited (Round Pvc) Pvc → Action End Pvc
  on_claim (ready pvc) = pure pvc
  on_claim (timed_out (pvc, e)) = too_late "PV creation" pvc.meta e
  on_claim starved = return out_of_fuel

  unfoldable pub wait_claim : Pvc → Action End Pvc
  unfolding wait give_up
  wait_claim pvc =
      wait api deadline (ask_claim api) (hear_claim api) fuel (pvc, none) >>= λ w. on_claim w

  abbrev pub on_volume : Waited (Round PersistentVolume) Provisioned → Action End Provisioned
  on_volume (ready v) = pure v
  on_volume (timed_out (pv, e)) = too_late "CSI provision" pv.meta e
  on_volume starved = return out_of_fuel

  unfoldable pub wait_volume : Pvc → Action End Provisioned
  unfolding wait give_up
  wait_volume pvc =
      wait api deadline (ask_volume api pvc) (hear_volume api pvc) fuel (empty_volume, none)
      >>= λ w. on_volume w

  -- At the deadline the name of the attachment is read, a panic on the nil pointer.
  abbrev pub on_attachment : Waited (Round (Option VolumeAttachment)) Attached → Action End Attached
  on_attachment (ready a) = pure a
  on_attachment (timed_out (none, e)) = crash
  on_attachment (timed_out (some va, e)) = too_late "VolumeAttachment" va.meta e
  on_attachment starved = return out_of_fuel

  unfoldable pub wait_attachment : Pvc → VolumeAttachment → String → Action End Attached
  unfolding wait give_up
  wait_attachment pvc va key =
      if str_eq key ""
      then pure (va, "")
      else (wait api deadline (ask_attachment api pvc) (hear_attachment api pvc key) fuel
            (some va, none)
          >>= λ w. on_attachment w)

  -- from WAIT_PV on
  unfoldable pub mount_claim :
      Pvc → Pvc → List String → String → ℤ → String → String → Action End (Unit {0})
  unfolding wait_claim wait_volume wait_attachment give_up start_job attempt
  mount_claim parent created container_ids node_name next_index provisioner wait_for_meta = do
    pvc ← wait_claim created
    (pv, csi) ← wait_volume pvc
    va_name ←
        require (render_resource_name true (config.name ∷ pvc.name ∷ pvc.namespace ∷ []))
          (return finished)
    let va = attachment_of va_name pod provisioner pvc.volume_name node_name
    attempt (Call.create_volume_attachment va) (λ h. api.create_volume_attachment h va)
        λ e. give_up api (
          monitor_event true pod
            ("Failed to create volume attachment for " ⧺ config.name ⧺ ": " ⧺ pv.name) (message e)
            pv.meta)
    (attached, volume_meta) ← wait_attachment pvc va wait_for_meta
    command ←
        attempt (Call.get_pre_mount_command provisioner pv (some attached))
          (λ h. api.get_pre_mount_command h provisioner pv (some attached))
          λ e. give_up api (driver_failed api config pod "GetPreMountCommand for " provisioner e)
    let mount_point =
        render_mount_point other config.spec.mount_point_pattern config.name next_index
    now ← observe api.now_text
    start_job api config pod ("Failed to create mount Job for " ⧺ config.name) (
        render_mount_job api.decode_job now pod.name pvc.name pvc.volume_name pvc.namespace
          node_name csi.fs_type mount_point container_ids command volume_meta
          (job_owner parent pvc))
