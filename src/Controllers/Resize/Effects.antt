-- ===== src/Controllers/Resize/Effects.antt =====
-- controllers/pvc_controller.go: the calls of resizePVC.
use discoblock.Base.{String, Option, none, some, [], ◌∷◌, ◌≡◌, ◌≢◌, arith, get}
use discoblock.Kube.Quantity.{Quantity}
use discoblock.Kube.Objects.{DiskConfig, Pvc, Pod, PersistentVolume, VolumeAttachment, CsiSource}
use discoblock.Kube.Exec.{Result, ok, err}
use discoblock.Kube.Exec.Emits.{Emits, emit_rules}
use discoblock.Kube.Api.{Api, Call}
use discoblock.Utils.HostJobs.Owned.{render_resize_job-owners}
use discoblock.Controllers.Volumes.Rules.{
  Reads, notify-Emits, give_up-Emits, get_volume_attachment-Emits, find_class-Emits,
  find_driver-Emits, find_wait_meta-Emits, start_job-Emits,
}
use discoblock.Controllers.Resize.{
  with_request, owner_of, on_csi, fetch_volume, fetch_meta, on_listed, resize_on_host, resize_later,
  after_update, resize_pvc,
}

-- Reads and events; the claim with the new capacity and no other change; and, for a claim with a parent,
-- a job that the claim owns.
abbrev pub Resizes : Quantity → Pvc → Call → Type 0
Resizes capacity old (Call.update_pvc pvc) = pvc ≡ with_request capacity old
Resizes capacity old (Call.create_job job) =
    (job.owners ≡ owner_of old ∷ []) × (get old.labels "discoblocks-parent" ≢ none)
Resizes capacity old (Call.get_storage_class _) = Unit
Resizes capacity old (Call.get_pv _) = Unit
Resizes capacity old (Call.list_volume_attachments _) = Unit
Resizes capacity old (Call.is_file_system_managed _) = Unit
Resizes capacity old (Call.wait_for_volume_attachment_meta _) = Unit
Resizes capacity old (Call.get_pre_resize_command _ _ _) = Unit
Resizes capacity old (Call.send_event _) = Unit
Resizes capacity old _ = ⊥

pub Resizes-Reads : (capacity : Quantity) (old : Pvc) → Reads (Resizes capacity old)
Resizes-Reads capacity old = record {
  event = λ _. tt;
  class = λ _. tt;
  attachments = λ _. tt;
  wait_meta = λ _. tt;
}

module _ (api : Api) (config : DiskConfig) (pod : Pod) (capacity : Quantity) (old : Pvc) where
  abbrev Allowed : Call → Type 0
  Allowed c = Resizes capacity old c

  abbrev reads : Reads (Resizes capacity old)
  reads = Resizes-Reads capacity old

  on_csi-Emits : (csi : Option CsiSource) → Emits Allowed (on_csi api config pod csi)
  on_csi-Emits none = search emit_rules
  on_csi-Emits (some csi) = search emit_rules

  fetch_volume-Emits : (pvc : Pvc) → Emits Allowed (fetch_volume api config pod pvc)
  unfolding fetch_volume
  fetch_volume-Emits pvc = search (emit_rules, give_up-Emits api reads)

  on_listed-Emits :
      (pv : PersistentVolume) (wait_for_meta : String) (r : Result String VolumeAttachment)
      → Emits Allowed (on_listed api config pod pv wait_for_meta r)
  on_listed-Emits pv wait_for_meta (ok va) = search emit_rules
  on_listed-Emits pv wait_for_meta (err e) = give_up-Emits api reads _

  fetch_meta-Emits :
      (pvc : Pvc) (pv : PersistentVolume) (wait_for_meta : String)
      → Emits Allowed (fetch_meta api config pod pvc pv wait_for_meta)
  unfolding fetch_meta
  fetch_meta-Emits pvc pv wait_for_meta =
      search (emit_rules, on_listed-Emits, get_volume_attachment-Emits api reads) depth 9

  resize_on_host-Emits :
      (node_name provisioner wait_for_meta : String)
      → get old.labels "discoblocks-parent" ≢ none
      → Emits Allowed (
          resize_on_host api config pod
            (with_request capacity old)
            node_name
            provisioner
            wait_for_meta)
  unfolding resize_on_host
  resize_on_host-Emits node_name provisioner wait_for_meta child =
      search
        (
          emit_rules,
          give_up-Emits api reads,
          start_job-Emits api reads,
          fetch_volume-Emits,
          on_csi-Emits,
          fetch_meta-Emits,
          render_resize_job-owners,
          child,
        )
        depth 9

  resize_later-Emits :
      (node_name : String)
      → get old.labels "discoblocks-parent" ≢ none
      → Emits Allowed (resize_later api config pod (with_request capacity old) node_name)
  unfolding resize_later
  resize_later-Emits node_name child =
      search
        (
          emit_rules,
          give_up-Emits api reads,
          notify-Emits api reads,
          find_class-Emits api reads,
          find_driver-Emits api reads,
          find_wait_meta-Emits api reads,
          resize_on_host-Emits,
          child,
        )
        depth 10

  pub after_update-Emits :
      (parent : Option String) (node_name : String)
      → get old.labels "discoblocks-parent" ≡ parent
      → Emits Allowed (after_update api config pod parent (with_request capacity old) node_name)
  after_update-Emits none node_name e = notify-Emits api reads _
  after_update-Emits (some parent) node_name e = resize_later-Emits node_name (ground (arith, e))

  -- resizePVC updates the claim and changes nothing of it but the requested capacity; it creates a
  -- job only for a claim that has a parent, and that claim owns the job; it makes no other write.
  pub resize_pvc-Resizes :
      (node_name : String)
      → Emits (Resizes capacity old) (resize_pvc api config pod capacity old node_name)
  unfolding resize_pvc
  resize_pvc-Resizes node_name =
      search (emit_rules, give_up-Emits api reads, after_update-Emits) depth 9
