-- ===== src/Controllers/Volumes.antt =====
-- controllers/pvc_controller.go: what createPVC and resizePVC share: their events, the StorageClass and
-- its driver, and getVolumeAttachment. Both return nothing.
pub mod Rules
pub mod Timed
use discoblock.Base.{String, ◌⧺◌, Bool, true, false, List, [], ◌∷◌, if◌then◌else◌}
use discoblock.Kube.Objects.{Meta, DiskConfig, StorageClass, Pod, Job, VolumeAttachment}
use discoblock.Kube.Exec.{Result, ok, err, pure, return, attempt, call, ◌>>=◌}
use discoblock.Kube.Api.{
  Api, Action, ApiError, Call, Event, Related, reference, is_not_found, message,
}

-- `return`; and the end of the model's fuel, which is no end of the code
pub data End : Type 0 where
  finished out_of_fuel : End

abbrev pub monitor_event : Bool → Pod → String → String → Meta → Event
monitor_event warning pod reason note related = record {
  warning = warning;
  namespace = pod.namespace;
  reporter = "Discoblocks";
  action = "PVC Monitor";
  reason = reason;
  note = note;
  regarding = reference pod.meta;
  related = Related.object (reference related);
}

-- getVolumeAttachment: with one item there is nothing to sort.
abbrev pub only_attachment :
    Result ApiError (List VolumeAttachment) → Result String VolumeAttachment
only_attachment (err e) = err (message e)
only_attachment (ok []) = err "failed to find VolumeAttachment"
only_attachment (ok (va ∷ [])) = ok va
only_attachment (ok (va ∷ vb ∷ rest)) =
    err "more than one VolumeAttachment attached to PersistentVolume"

module _ (api : Api) where
  -- SendWarning or SendNormal, whose error is logged
  unfoldable pub notify : Event → Action End (Unit {0})
  unfolding ◌>>=◌
  notify event = call (Call.send_event event) (λ h. api.send_event h event) >>= λ _. pure tt

  -- an event, then `return`
  unfoldable pub give_up : {A : Type 0} → Event → Action End A
  unfolding notify
  give_up event = notify event >>= λ _. return finished

  unfoldable pub get_volume_attachment : String → Action End (Result String VolumeAttachment)
  get_volume_attachment volume_name =
      call (Call.list_volume_attachments volume_name)
        λ h. only_attachment (api.list_volume_attachments h volume_name)

module _ (api : Api) (config : DiskConfig) (pod : Pod) where
  abbrev pub warn_config : String → String → Event
  warn_config reason note = monitor_event true pod reason note config.meta

  abbrev pub class_missing : ApiError → Action End StorageClass
  class_missing e =
      if is_not_found e
      then give_up api (
          warn_config
            ("StorageClass not found for " ⧺ config.name ⧺ ": " ⧺ config.spec.storage_class_name)
            (message e))
      else give_up api (
          warn_config
            ("Failed to fetch StorageClass for " ⧺ config.name ⧺ ": "
              ⧺ config.spec.storage_class_name)
            (message e))

  unfoldable pub find_class : Action End StorageClass
  unfolding give_up attempt
  find_class =
      attempt (Call.get_storage_class config.spec.storage_class_name)
        (λ h. api.get_storage_class h config.spec.storage_class_name) class_missing

  unfoldable pub find_driver : String → Action End (Unit {0})
  unfolding give_up
  find_driver provisioner =
      if api.has_driver provisioner
      then pure tt
      else give_up api (
          warn_config ("Failed to find driver for " ⧺ config.name ⧺ ": " ⧺ provisioner)
            ("driver not found: " ⧺ provisioner))

  -- what the events say of a driver's method that fails
  abbrev pub driver_failed : String → String → String → Event
  driver_failed method provisioner note =
      warn_config ("Failed to call driver." ⧺ method ⧺ config.name ⧺ ": " ⧺ provisioner) note

  unfoldable pub find_wait_meta : String → Action End String
  unfolding give_up attempt
  find_wait_meta provisioner =
      attempt (Call.wait_for_volume_attachment_meta provisioner)
        (λ h. api.wait_for_volume_attachment_meta h provisioner)
        λ e. give_up api (driver_failed "WaitForVolumeAttachmentMeta " provisioner e)

  -- creates a job that was rendered
  unfoldable pub start_job : String → Result String Job → Action End (Unit {0})
  unfolding give_up attempt
  start_job reason (err e) = return finished
  start_job reason (ok job) =
      attempt (Call.create_job job) (λ h. api.create_job h job)
        λ e. give_up api (warn_config reason (message e))
