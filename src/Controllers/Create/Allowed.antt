-- ===== src/Controllers/Create/Allowed.antt =====
-- controllers/pvc_controller.go: what createPVC may write.
use discoblock.Base.{String, Option, none, some, [], ◌∷◌, ◌≡◌, refl, get, put}
use discoblock.Base.Int.{ℤ}
use discoblock.Text.Decimal.{format_int}
use discoblock.Kube.Objects.{DiskConfig, Pvc, Pod, StorageClass}
use discoblock.Kube.Exec.{ok}
use discoblock.Utils.Decorate.Topology.{IsTopologyClass}
use discoblock.Kube.Api.{Api, Call, History}
use discoblock.Utils.Names.{render_finalizer}
use discoblock.Utils.Decorate.{pvc_decorator}
use discoblock.Controllers.Create.{with_class, child_of}

-- A claim of the DiskConfig that belongs to a parent, with the index of the disk.
pub record IsChild (config : DiskConfig) (parent : Pvc) (index : ℤ) (pvc : Pvc) : Type 0 where
  pub finalizers : pvc.finalizers ≡ render_finalizer config.name [] ∷ []
  pub managed : get pvc.labels "discoblocks" ≡ some config.name
  pub parent_label : get pvc.labels "discoblocks-parent" ≡ some parent.name
  pub index_label : get pvc.labels "discoblocks-index" ≡ some (format_int index)
  pub request : pvc.request ≡ config.spec.capacity
  pub owner :
      pvc.owners
      ≡ record {
        api_version = parent.api_version;
        kind = parent.kind;
        name = parent.name;
        uid = parent.uid;
      }
        ∷ []

-- What the server answered when it was asked for the claim, or for what it had answered.
pub data IsRead (api : Api) (created : Pvc) : Pvc → Type 0 where
  start : IsRead api created created
  read :
      (h : History) (old pvc : Pvc)
      → IsRead api created old
      → api.get_pvc h old.namespace old.name ≡ ok pvc
      → IsRead api created pvc

module _ (api : Api) (config : DiskConfig) (pod : Pod) (parent : Pvc) (node : String)
    (index : ℤ) where
  -- The new claim, as the server answered it.
  abbrev pub IsRecent : Pvc → Type 0
  IsRecent pvc = (created : Pvc) × IsChild config parent index created × IsRead api created pvc

  -- A class with the topology of the node, copied from the class of the DiskConfig.
  abbrev pub IsNewClass : StorageClass → Type 0
  IsNewClass sc = IsTopologyClass api config.spec.storage_class_name node sc

  -- What createPVC may call.
  abbrev pub Creates : Call → Type 0
  Creates (Call.create_pvc pvc) = IsChild config parent index pvc
  Creates (Call.create_storage_class sc) = IsNewClass sc
  Creates (Call.update_storage_class sc) =
      (new : StorageClass) × (h : History) × (old : StorageClass) × IsNewClass new
      × (api.get_storage_class h new.name ≡ ok old)
      × (sc ≡ record old {
        meta = record (old.meta) {
          finalizers =
              api.add_finalizer old.finalizers
                (render_finalizer config.name (config.namespace ∷ []));
        };
      })
  Creates (Call.create_volume_attachment va) =
      (pvc : Pvc) × IsRecent pvc
      × (va.persistent_volume_name ≡ some pvc.volume_name)
      × (va.node_name ≡ node)
      × (va.owners
          ≡ record {
            api_version = pod.api_version;
            kind = pod.kind;
            name = pod.name;
            uid = pod.uid;
          }
            ∷ [])
  Creates (Call.create_job job) =
      (pvc : Pvc) × IsRecent pvc
      × (job.owners
          ≡ record {
            api_version = parent.api_version;
            kind = parent.kind;
            name = pvc.name;
            uid = pvc.uid;
          }
            ∷ [])
  Creates (Call.get_storage_class _) = Unit
  Creates (Call.get_node _) = Unit
  Creates (Call.get_pvc _ _) = Unit
  Creates (Call.get_pv _) = Unit
  Creates (Call.list_volume_attachments _) = Unit
  Creates (Call.get_pvc_stub _ _ _ _) = Unit
  Creates (Call.get_allowed_topology _ _) = Unit
  Creates (Call.wait_for_volume_attachment_meta _) = Unit
  Creates (Call.get_pre_mount_command _ _ _) = Unit
  Creates (Call.sleep _) = Unit
  Creates (Call.send_event _) = Unit
  Creates _ = ⊥

pub child_of-IsChild :
    (config : DiskConfig) (parent stub : Pvc) (index : ℤ) (name : Option String)
    → IsChild config parent index
        (child_of parent index (with_class name (pvc_decorator config stub)))
unfolding pvc_decorator get put
child_of-IsChild config parent stub index none = record {
  finalizers = refl;
  managed = refl;
  parent_label = refl;
  index_label = refl;
  request = refl;
  owner = refl;
}
child_of-IsChild config parent stub index (some name) = record {
  finalizers = refl;
  managed = refl;
  parent_label = refl;
  index_label = refl;
  request = refl;
  owner = refl;
}
