-- ===== src/Scheduler.antt =====
-- schedulers/pod.go: the Filter of the scheduler's plugin, one node for one pod.
pub mod Fits
pub mod Lenient
use discoblock.Base.{
  ℕ, String, ◌⧺◌, Bool, true, false, not, ◌&&◌, ◌||◌, Option, none, some, List, [], ◌∷◌, any,
  is_some, str_eq, if◌then◌else◌, Map, put,
}
use discoblock.Kube.Objects.{DiskConfig, StorageClass, Pod, Node}
use discoblock.Kube.Exec.{Result, ok, err, pure, return, crash, attempt, for_each, ◌>>=◌, ◌>>◌}
use discoblock.Kube.Api.{Api, Action, ApiError, Call, message}
use discoblock.Utils.Labels.{is_contains_all}

-- framework.Status of the scheduler: a code and a message
pub data Code : Type 0 where
  success error unschedulable : Code

pub record Status : Type 0 where
  pub code : Code
  pub text : String

-- framework.NodeInfo
pub record NodeInfo : Type 0 where
  -- `Node()` is nil for none
  pub node : Option Node
  pub pods : List Pod

-- `errorStatus`
abbrev pub error_code : Bool → Code
error_code true = Code.error
error_code false = Code.success

-- The DiskConfigs of the pod that are not being deleted.
unfoldable pub applies : Pod → DiskConfig → Bool
applies pod config =
    not (is_some config.deleted) && is_contains_all pod.labels config.spec.pod_selector

-- `storageClasses[name] = true`
unfoldable pub add_name : List String → String → List String
add_name names name = if any (str_eq name) names then names else name ∷ names

-- The loop over a config's matchLabels. Where a label has two values the status that the code makes
-- is dropped, and the later value stays.
unfoldable pub add_labels : Map String → Map String → Map String
add_labels selector [] = selector
add_labels selector ((key, value) ∷ rest) = add_labels (put selector key value) rest

abbrev pub selector_labels : Option (Map String) → Map String
selector_labels none = []
selector_labels (some labels) = labels

-- the loop over the configs, with `storageClasses` and `nodeSelector`
unfoldable pub collect : Pod → List String → Map String → List DiskConfig → List String × Map String
unfolding add_name add_labels
collect pod names selector [] = (names, selector)
collect pod names selector (config ∷ configs) =
    let taken =
      collect pod (add_name names config.spec.storage_class_name)
        (add_labels selector (selector_labels config.spec.node_selector)) configs in
    let skipped = collect pod names selector configs in
    if applies pod config then taken else skipped

-- The loop that looks for a pod of the CSI driver on the node.
unfoldable pub runs : List Pod → String × Map String → Bool
runs pods (namespace, labels) =
    any (λ pod. str_eq pod.namespace namespace && is_contains_all pod.labels labels) pods

module _ (api : Api) (strict : Bool) (info : NodeInfo) where
  abbrev pub fail : String → Status
  fail text = record { code = error_code strict; text = text }

  -- one round of the loop over the StorageClasses
  unfoldable pub check_class : String → Action Status (Unit {0})
  unfolding runs
  check_class name = do
    sc ←
        attempt (Call.get_storage_class name) (λ h. api.get_storage_class h name)
          λ e. return (fail (message e))
    if api.has_driver sc.provisioner
        then pure tt
        else return (fail ("driver not found: " ⧺ sc.provisioner))
    details ←
        attempt (Call.get_csi_driver_details sc.provisioner)
          (λ h. api.get_csi_driver_details h sc.provisioner)
          λ e. return (fail ("failed to call driver: " ⧺ sc.provisioner))
    if runs info.pods details
        then pure tt
        else return (record {
          code = Code.unschedulable;
          text = "CSI Driver not found for: " ⧺ sc.provisioner;
        })

  -- the end of the function
  unfoldable pub check_labels : Node → Map String → Status
  check_labels node [] = record { code = Code.success; text = "Node fits to pod" }
  check_labels node (kv ∷ selector) =
      if is_contains_all node.labels (kv ∷ selector)
      then record { code = Code.success; text = "Node fits to pod by labels" }
      else record { code = Code.unschedulable; text = "Node doesn't fit to pod" }

  -- after the configs are collected; `order` is the iteration order of `storageClasses`
  unfoldable pub check_node :
      Node → (List String → List String) → List String → Map String → Action Status Status
  check_node node order [] selector =
      return (record { code = Code.success; text = "DiskConfig not found" })
  check_node node order (name ∷ names) selector = do
    for_each (order (name ∷ names)) check_class
    pure (check_labels node selector)

  -- from the list of the DiskConfigs on
  unfoldable pub filter_node : Node → (List String → List String) → Pod → Action Status Status
  filter_node node order pod = do
    configs ←
        attempt (Call.list_disk_configs (some pod.namespace))
          (λ h. api.list_disk_configs h (some pod.namespace)) λ e. return (fail (message e))
    let (names, selector) = collect pod [] [] configs
    check_node node order names selector

  -- The first line reads the name of the node.
  abbrev pub on_node : Option Node → (List String → List String) → Pod → Action Status Status
  on_node none order pod = crash
  on_node (some node) order pod = filter_node node order pod

  unfoldable pub filter : (List String → List String) → Pod → Action Status Status
  unfolding filter_node
  filter order pod = on_node info.node order pod
