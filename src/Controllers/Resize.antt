-- ===== src/Controllers/Resize.antt =====
-- controllers/pvc_controller.go: resizePVC.
pub mod Effects
pub mod Ends
use discoblock.Base.{
  String, ◌⧺◌, Bool, true, false, Option, none, some, List, [], ◌∷◌, if◌then◌else◌, get, label,
  str_eq,
}
use discoblock.Kube.Quantity.{Quantity}
use discoblock.Kube.Objects.{
  DiskConfig, Pvc, Pod, Job, PersistentVolume, VolumeAttachment, CsiSource, OwnerReference,
}
use discoblock.Kube.Exec.{
  Result, ok, err, pure, return, crash, catch, attempt, observe, ◌>>=◌, ◌>>◌,
}
use discoblock.Kube.Api.{Api, Action, Call, Event, message}
use discoblock.Controllers.Volumes.{
  End, finished, monitor_event, notify, give_up, get_volume_attachment, warn_config, find_class,
  find_driver, driver_failed, find_wait_meta, start_job,
}
use discoblock.Utils.HostJobs.{render_resize_job}

-- `pvc.Spec.Resources.Requests[storage] = capacity`
abbrev pub with_request : Quantity → Pvc → Pvc
with_request capacity pvc = record pvc { request = capacity }

abbrev pub owner_of : Pvc → OwnerReference
owner_of pvc = record {
  api_version = pvc.api_version;
  kind = pvc.kind;
  name = pvc.name;
  uid = pvc.uid;
}

module _ (api : Api) (config : DiskConfig) (pod : Pod) where
  -- the event of a resize that the CSI driver finishes
  abbrev pub resized : Pvc → String → Event
  resized pvc note =
      monitor_event false pod ("New capacity of " ⧺ pvc.name ⧺ ": " ⧺ pvc.request) note pvc.meta

  -- A volume without CSI is reported by the error of a successful Get: `err.Error()` panics on nil.
  abbrev pub on_csi : Option CsiSource → Action End CsiSource
  on_csi none = crash
  on_csi (some csi) = pure csi

  unfoldable pub fetch_volume : Pvc → Action End PersistentVolume
  unfolding give_up attempt
  fetch_volume pvc =
      attempt (Call.get_pv pvc.volume_name) (λ h. api.get_pv h pvc.volume_name)
        λ e.
          give_up api (
            warn_config api config pod ("Failed to fetch PV for " ⧺ config.name ⧺ ": ") (message e))

  -- Metadata that is missing is reported by the error of the list that succeeded: a panic again.
  abbrev pub meta_found : VolumeAttachment → String → Action End (Option VolumeAttachment × String)
  meta_found va volume_meta = if str_eq volume_meta "" then crash else pure (some va, volume_meta)

  abbrev pub on_listed :
      PersistentVolume
      → String
      → Result String VolumeAttachment
      → Action End (Option VolumeAttachment × String)
  on_listed pv wait_for_meta (ok va) = meta_found va (label va.attachment_metadata wait_for_meta)
  on_listed pv wait_for_meta (err e) = give_up api (
      monitor_event true pod
        ("Failed to fetch VolumeAttachment for " ⧺ config.name ⧺ ": " ⧺ pv.name) e pv.meta)

  unfoldable pub fetch_meta :
      Pvc → PersistentVolume → String → Action End (Option VolumeAttachment × String)
  unfolding give_up get_volume_attachment
  fetch_meta pvc pv wait_for_meta =
      if str_eq wait_for_meta ""
      then pure (none, "")
      else (get_volume_attachment api pvc.volume_name >>= λ answer.
          on_listed pv wait_for_meta answer)

  -- from the search of the volume on
  unfoldable pub resize_on_host : Pvc → String → String → String → Action End (Unit {0})
  unfolding give_up attempt fetch_volume fetch_meta
  resize_on_host pvc node_name provisioner wait_for_meta = do
    pv ← fetch_volume pvc
    csi ← on_csi pv.csi
    (va, volume_meta) ← fetch_meta pvc pv wait_for_meta
    command ←
        attempt (Call.get_pre_resize_command provisioner pv va)
          (λ h. api.get_pre_resize_command h provisioner pv va)
          λ e. give_up api (driver_failed api config pod "GetPreResizeCommand for " provisioner e)
    now ← observe api.now_text
    start_job api config pod ("Failed to create resize Job for " ⧺ config.name) (
        render_resize_job api.decode_job now pod.name pvc.name pvc.volume_name pvc.namespace
          node_name csi.fs_type command volume_meta (owner_of pvc))

  -- from the StorageClass on
  unfoldable pub resize_later : Pvc → String → Action End (Unit {0})
  unfolding find_class find_driver find_wait_meta resize_on_host
  resize_later pvc node_name = do
    sc ← find_class api config pod
    find_driver api config pod sc.provisioner
    managed ←
        attempt (Call.is_file_system_managed sc.provisioner)
          (λ h. api.is_file_system_managed h sc.provisioner)
          λ e. give_up api (driver_failed api config pod "IsFileSystemManaged " sc.provisioner e)
    if managed
        then notify api (resized pvc "Operation finished: disk resizing by CSI driver")
        else (find_wait_meta api config pod sc.provisioner >>= λ wait_for_meta.
            resize_on_host pvc node_name sc.provisioner wait_for_meta)

  -- Only a claim that the operator created has the label of a parent.
  abbrev pub after_update : Option String → Pvc → String → Action End (Unit {0})
  after_update none pvc node_name =
      notify api (resized pvc "Operation finished: disk managed by CSI driver")
  after_update (some parent) pvc node_name = resize_later pvc node_name

  unfoldable pub resize_pvc : Quantity → Pvc → String → Action End (Unit {0})
  unfolding give_up notify resize_later attempt
  resize_pvc capacity old node_name = do
    let pvc = with_request capacity old
    attempt (Call.update_pvc pvc) (λ h. api.update_pvc h pvc)
        λ e. give_up api (
          monitor_event true pod ("Failed to update PVC for " ⧺ config.name ⧺ ": " ⧺ pvc.name)
            (message e) pvc.meta)
    after_update (get pvc.labels "discoblocks-parent") pvc node_name
