-- ===== src/Controllers/Resize/Ends.antt =====
-- controllers/pvc_controller.go: the panics of resizePVC.
use discoblock.Base.{
  String, Option, none, some, List, ◌≡◌, ◌⊎◌, inl, inr, refl, label, str_eq, eq_iff,
}
use discoblock.Kube.Quantity.{Quantity}
use discoblock.Kube.Objects.{DiskConfig, Pvc, Pod, PersistentVolume, VolumeAttachment, CsiSource}
use discoblock.Kube.Exec.{Result, ok, err}
use discoblock.Kube.Exec.Returns.{
  Returns, Any, return_rules, Returns-then, Returns-crash, Returns-pure, Returns-if, Returns-bind,
  Returns-attempt-told,
}
use discoblock.Kube.Api.{Api, Call}
use discoblock.Controllers.Volumes.{only_attachment}
use discoblock.Controllers.Volumes.Rules.{
  Finished, notify-Returns, give_up-Returns, get_volume_attachment-told, find_class-Returns,
  find_driver-Returns, find_wait_meta-Returns, start_job-Returns,
}
use discoblock.Controllers.Resize.{
  on_csi, fetch_volume, meta_found, fetch_meta, on_listed, resize_on_host, resize_later,
  after_update, resize_pvc,
}

-- The server answers a volume without CSI.
abbrev pub VolumeWithoutCsi : Api → Type 0
VolumeWithoutCsi api =
    (h : List Call) × (name : String) × (pv : PersistentVolume) × (api.get_pv h name ≡ ok pv)
    × (pv.csi ≡ none)

-- The server answers one attachment, which lacks a metadata key or has nothing under it.
abbrev pub AttachmentWithoutMeta : Api → Type 0
AttachmentWithoutMeta api =
    (h : List Call) × (name : String) × (va : VolumeAttachment) × (key : String) × (only_attachment
        (api.list_volume_attachments h name)
      ≡ ok va)
    × (label va.attachment_metadata key ≡ "")

module _ (api : Api) (config : DiskConfig) (pod : Pod) where
  abbrev Cause : Type 0
  Cause = VolumeWithoutCsi api ⊎ AttachmentWithoutMeta api

  abbrev FromServer : PersistentVolume → Type 0
  FromServer pv = (h : List Call) × (name : String) × (api.get_pv h name ≡ ok pv)

  fetch_volume-Returns :
      (pvc : Pvc) → Returns Cause Finished FromServer (fetch_volume api config pod pvc)
  unfolding fetch_volume
  fetch_volume-Returns pvc =
      Returns-attempt-told _ _ _ (λ e. give_up-Returns api _)
        λ h pv told. (h, pvc.volume_name, told)

  on_csi-Returns :
      (pv : PersistentVolume) (csi : Option CsiSource)
      → FromServer pv
      → pv.csi ≡ csi
      → Returns Cause Finished Any (on_csi api config pod csi)
  on_csi-Returns pv none (h, name, told) e = Returns-crash (inl (h, name, pv, told, e))
  on_csi-Returns pv (some csi) told e = search return_rules

  abbrev Listed : VolumeAttachment → Type 0
  Listed va =
      (h : List Call) × (name : String) × (only_attachment (api.list_volume_attachments h name)
        ≡ ok va)

  meta_found-Returns :
      (va : VolumeAttachment) (key : String)
      → Listed va
      → Returns Cause Finished Any (meta_found api config pod va (label va.attachment_metadata key))
  meta_found-Returns va key (h, name, told) =
      Returns-if _ _ _ (λ e. Returns-crash (inr (h, name, va, key, told, (eq_iff _ "").0 e)))
        (λ _. Returns-pure _ tt)

  on_listed-Returns :
      (pv : PersistentVolume) (wait_for_meta : String) (h : List Call) (name : String)
      (r : Result String VolumeAttachment)
      → only_attachment (api.list_volume_attachments h name) ≡ r
      → Returns Cause Finished Any (on_listed api config pod pv wait_for_meta r)
  on_listed-Returns pv wait_for_meta h name (ok va) told =
      meta_found-Returns va wait_for_meta (h, name, told)
  on_listed-Returns pv wait_for_meta h name (err e) told = give_up-Returns api _

  fetch_meta-Returns :
      (pvc : Pvc) (pv : PersistentVolume) (wait_for_meta : String)
      → Returns Cause Finished Any (fetch_meta api config pod pvc pv wait_for_meta)
  unfolding fetch_meta
  fetch_meta-Returns pvc pv wait_for_meta =
      Returns-if (str_eq wait_for_meta "") _ _ (λ _. Returns-pure (none, "") tt)
        (λ _.
          Returns-then _ _ (λ r. on_listed api config pod pv wait_for_meta r)
            (get_volume_attachment-told api pvc.volume_name)
            λ r told. on_listed-Returns pv wait_for_meta told.0 pvc.volume_name r told.1)

  resize_on_host-Returns :
      (pvc : Pvc) (node_name provisioner wait_for_meta : String)
      → Returns Cause Finished Any
          (resize_on_host api config pod pvc node_name provisioner wait_for_meta)
  unfolding resize_on_host
  resize_on_host-Returns pvc node_name provisioner wait_for_meta =
      Returns-then _ _ _ (fetch_volume-Returns pvc) λ pv told.
        Returns-bind _ _ (on_csi-Returns pv pv.csi told refl) λ csi.
          search (return_rules, give_up-Returns, start_job-Returns, fetch_meta-Returns) depth 9

  resize_later-Returns :
      (pvc : Pvc) (node_name : String)
      → Returns Cause Finished Any (resize_later api config pod pvc node_name)
  unfolding resize_later
  resize_later-Returns pvc node_name =
      search
        (
          return_rules, give_up-Returns, notify-Returns, find_class-Returns, find_driver-Returns,
          find_wait_meta-Returns, resize_on_host-Returns,
        )
        depth 10

  after_update-Returns :
      (parent : Option String) (pvc : Pvc) (node_name : String)
      → Returns Cause Finished Any (after_update api config pod parent pvc node_name)
  after_update-Returns none pvc node_name = notify-Returns api _
  after_update-Returns (some parent) pvc node_name = resize_later-Returns pvc node_name

  -- resizePVC panics only where the server answers a volume without CSI, or an attachment without
  -- the metadata that the driver waits for.
  pub resize_pvc-Returns :
      (capacity : Quantity) (old : Pvc) (node_name : String)
      → Returns
          (VolumeWithoutCsi api ⊎ AttachmentWithoutMeta api)
          Finished
          Any
          (resize_pvc api config pod capacity old node_name)
  unfolding resize_pvc
  resize_pvc-Returns capacity old node_name =
      search (return_rules, give_up-Returns, after_update-Returns) depth 9
