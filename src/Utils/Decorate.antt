-- ===== src/Utils/Decorate.antt =====
-- pkg/utils/kube.go: PVCDecorator, NewStorageClass, IsOwnedByDaemonSet, GetTargetNodeByAffinity.
pub mod TargetNode
pub mod Topology
use discoblock.Base.{
  String, ◌⧺◌, Bool, true, false, ◌&&◌, Option, none, some, List, [], ◌∷◌, if◌then◌else◌, str_eq,
  any, put,
}
use discoblock.Kube.Objects.{
  DiskConfig, Pvc, StorageClass, TopologyTerm, Pod, OwnerReference, Affinity, NodeAffinity,
  NodeSelectorRequirement, NodeSelectorTerms,
}
use discoblock.Utils.Names.{render_finalizer, render_resource_name}

abbrev default_modes : List String → List String
default_modes [] = "ReadWriteOnce" ∷ []
default_modes (m ∷ ms) = m ∷ ms

-- The parameters `prefix` and `driver` of the source are not used there.
unfoldable pub pvc_decorator : DiskConfig → Pvc → Pvc
pvc_decorator config pvc = record pvc {
  meta = record (pvc.meta) {
    finalizers = render_finalizer config.name [] ∷ [];
    labels = ("discoblocks", config.name) ∷ [];
  };
  request = config.spec.capacity;
  access_modes = default_modes config.spec.access_modes;
}

topology_items : String → List TopologyTerm → String
topology_items items [] = items
topology_items items (ti ∷ rest) = topology_items (items ⧺ ti.text) rest

abbrev pub with_name : StorageClass → List TopologyTerm → Option String → Option StorageClass
with_name sc terms none = none
with_name sc terms (some name) = some (record sc {
  meta = record (sc.meta) { uid = ""; resource_version = ""; name = name };
  volume_binding_mode = some "Immediate";
  allowed_topologies = terms;
})

-- `none` is the error of RenderResourceName.
unfoldable pub new_storage_class : StorageClass → List TopologyTerm → Option StorageClass
unfolding topology_items
new_storage_class sc terms =
    with_name sc terms (render_resource_name true (sc.uid ∷ sc.name ∷ topology_items "" terms ∷ []))

unfoldable pub is_owned_by_daemon_set : Pod → Bool
is_owned_by_daemon_set pod =
    any (λ (o : OwnerReference). str_eq o.kind "DaemonSet" && str_eq o.api_version "apps/v1")
      pod.owners

-- One match field; `none` goes on with the next one.
unfoldable pub field_node : NodeSelectorRequirement → Option String
field_node mf = elim mf.values [
  | [] ↦ none
  | v ∷ rest ↦ if str_eq mf.key "metadata.name" && str_eq mf.operator "In" then some v else none
]

abbrev pub first_some {ℓ} : {A : Type ℓ} → Option A → Option A → Option A
first_some none later = later
first_some (some a) later = some a

unfoldable pub scan_fields : List NodeSelectorRequirement → Option String
unfolding field_node
scan_fields [] = none
scan_fields (mf ∷ rest) = first_some (field_node mf) (scan_fields rest)

unfoldable pub scan_terms : NodeSelectorTerms → Option String
unfolding scan_fields
scan_terms [] = none
scan_terms (term ∷ rest) = first_some (scan_fields term) (scan_terms rest)

abbrev or_empty : Option String → String
or_empty none = ""
or_empty (some s) = s

abbrev required_terms : Option NodeSelectorTerms → String
required_terms none = ""
required_terms (some terms) = or_empty (scan_terms terms)

abbrev node_affinity_name : Option NodeAffinity → String
node_affinity_name none = ""
node_affinity_name (some na) = required_terms na.required

unfoldable pub get_target_node_by_affinity : Option Affinity → String
unfolding scan_terms
get_target_node_by_affinity none = ""
get_target_node_by_affinity (some a) = node_affinity_name a.node_affinity
