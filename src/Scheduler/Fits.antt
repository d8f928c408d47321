-- ===== src/Scheduler/Fits.antt =====
-- schedulers/pod.go: the Filter in strict mode.
use discoblock.Base.{none, String, true, some, List, [], Map, All, keep, ◌≡◌, ◌≢◌, ◌⊎◌}
use discoblock.Kube.Objects.{DiskConfig, StorageClass, Pod, Node}
use discoblock.Kube.Exec.{ok}
use discoblock.Kube.Exec.Returns.{Returns}
use discoblock.Kube.Api.{Api, History}
use discoblock.Utils.Labels.{Covers}
use discoblock.Scheduler.{Code, Status, NodeInfo, applies, collect, runs, on_node}

-- A pod of the CSI driver of the StorageClass with this name runs on the node.
pub record DriverRuns (api : Api) (info : NodeInfo) (name : String) : Type 0 where
  pub before_class : History
  pub before_details : History
  pub class : StorageClass
  pub details : String × Map String
  pub class_found : api.get_storage_class before_class name ≡ ok class
  pub driver_found : api.has_driver class.provisioner ≡ true
  pub details_found : api.get_csi_driver_details before_details class.provisioner ≡ ok details
  pub on_node : runs info.pods details ≡ true

-- Every DiskConfig of the pod has its CSI driver on the node, which is there and has the labels collected
-- from the node selectors.
pub record Fits (api : Api) (info : NodeInfo) (pod : Pod) : Type 0 where
  pub before : History
  pub node : Node
  pub node_there : info.node ≡ some node
  pub configs : List DiskConfig
  pub listed : api.list_disk_configs before (some pod.namespace) ≡ ok configs
  pub drivers_run :
      All
        (λ (config : DiskConfig). DriverRuns api info config.spec.storage_class_name)
        (keep (applies pod) configs)
  pub labels_fit : Covers node.labels (collect pod [] [] configs).1

module _ (api : Api) (info : NodeInfo) (pod : Pod) where
  -- There is no node.
  abbrev X : Type 0
  X = info.node ≡ none

  abbrev pub Claim : Status → Type 0
  Claim s = (s.code ≢ Code.success) ⊎ Fits api info pod
