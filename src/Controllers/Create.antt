-- ===== src/Controllers/Create.antt =====
-- controllers/pvc_controller.go: createPVC.
pub mod Topology
pub mod Mounting
pub mod Allowed
pub mod Effects
pub mod Waiting
pub mod Ends
use discoblock.Base.{String, ◌⧺◌, true, put, Option, none, some, List, [], ◌∷◌}
use discoblock.Base.Int.{ℤ}
use discoblock.Text.Decimal.{format_int}
use discoblock.Kube.Objects.{DiskConfig, Pvc, Pod, StorageClass, Node}
use discoblock.Kube.Exec.{Result, ok, err, pure, return, require, attempt, observe, ◌>>=◌, ◌>>◌}
use discoblock.Kube.Api.{Api, Action, Call, message}
use discoblock.Utils.Names.{render_resource_name}
use discoblock.Utils.Decorate.{pvc_decorator}
use discoblock.Controllers.Volumes.{
  End, finished, give_up, warn_config, driver_failed, find_class, find_driver, find_wait_meta,
}
use discoblock.Controllers.Waits.{deadline_after}
use discoblock.Controllers.Create.Topology.{topology_class}
use discoblock.Controllers.Create.Mounting.{mount_claim}

-- `pvc.Spec.StorageClassName = &topologySC.Name`, where there is one
abbrev pub with_class : Option String → Pvc → Pvc
with_class none pvc = pvc
with_class (some name) pvc = record pvc { storage_class_name = some name }

-- The two labels that PVCDecorator does not set, and the parent as the owner.
abbrev pub child_of : Pvc → ℤ → Pvc → Pvc
child_of parent next_index pvc = record pvc {
  meta = record (pvc.meta) {
    labels =
        put (put pvc.labels "discoblocks-parent" parent.name) "discoblocks-index"
          (format_int next_index);
    owners =
        record {
          api_version = parent.api_version;
          kind = parent.kind;
          name = parent.name;
          uid = parent.uid;
        }
        ∷ [];
  };
}

module _ (other : String → ℤ → String) (api : Api) (config : DiskConfig) (pod : Pod) where
  -- GetNamePrefix(ReadWriteOnce, …) is the text of the time.
  unfoldable pub claim_name : Action End String
  claim_name = observe api.now_text >>= λ prefix.
      require (render_resource_name true (prefix ∷ config.name ∷ config.namespace ∷ []))
        (return finished)

  unfoldable pub find_node : String → Action End Node
  unfolding give_up attempt
  find_node node_name =
      attempt (Call.get_node node_name) (λ h. api.get_node h node_name)
        λ e. give_up api (
          warn_config api config pod ("Failed to fetch Node for " ⧺ config.name ⧺ ": " ⧺ node_name)
            (message e))

  unfoldable pub find_stub : String → String → Action End Pvc
  unfolding give_up attempt
  find_stub provisioner name =
      attempt (Call.get_pvc_stub provisioner name config.namespace config.spec.storage_class_name)
        (λ h. api.get_pvc_stub h provisioner name config.namespace config.spec.storage_class_name)
        λ e. give_up api (driver_failed api config pod "GetPVCStub for " provisioner e)

  -- creates the claim and starts the clock of the waits
  unfoldable pub create_and_mount :
      Pvc → Pvc → List String → String → ℤ → String → String → Action End (Unit {0})
  unfolding give_up attempt mount_claim
  create_and_mount parent pvc container_ids node_name next_index provisioner wait_for_meta = do
    attempt (Call.create_pvc pvc) (λ h. api.create_pvc h pvc)
        λ e. give_up api (
          warn_config api config pod ("Failed to create PVC for " ⧺ config.name ⧺ ": " ⧺ pvc.name)
            (message e))
    start ← observe api.now
    mount_claim other api config pod (deadline_after start config.spec.policy.cool_down) parent pvc
        container_ids node_name next_index provisioner wait_for_meta

  unfoldable pub create_pvc : Pvc → List String → String → ℤ → Action End (Unit {0})
  unfolding find_class find_driver find_wait_meta claim_name find_node find_stub topology_class
      give_up create_and_mount attempt
  create_pvc parent container_ids node_name next_index = do
    sc ← find_class api config pod
    node ← find_node node_name
    find_driver api config pod sc.provisioner
    name ← claim_name
    stub ← find_stub sc.provisioner name
    terms ←
        attempt (Call.get_allowed_topology sc.provisioner node)
          (λ h. api.get_allowed_topology h sc.provisioner node)
          λ e.
            give_up api
              (driver_failed api config pod "GetStorageClassAllowedTopology for " sc.provisioner e)
    wait_for_meta ← find_wait_meta api config pod sc.provisioner
    class_name ← topology_class api config pod sc terms
    create_and_mount parent
        (child_of parent next_index (with_class class_name (pvc_decorator config stub)))
        container_ids node_name next_index sc.provisioner wait_for_meta
