-- ===== src/Utils/Decorate/Topology.antt =====
-- pkg/utils/kube.go, NewStorageClass: the class for the topology of a node, as its callers make it.
use discoblock.Base.{String, some, List, [], ◌≡◌, ◌≢◌}
use discoblock.Kube.Objects.{StorageClass, TopologyTerm, Node}
use discoblock.Kube.Exec.{ok}
use discoblock.Kube.Api.{Api, History}

-- A copy, under another name, of a class that the server answered: it binds at once, and only in the
-- topology that the driver of the class answered for the node.
pub record IsTopologyClass (api : Api) (class_name node_name : String) (sc : StorageClass)
    : Type 0 where
  pub before_class : History
  pub before_node : History
  pub before_terms : History
  pub class : StorageClass
  pub node : Node
  pub terms : List TopologyTerm
  pub name : String
  pub found : api.get_storage_class before_class class_name ≡ ok class
  pub node_found : api.get_node before_node node_name ≡ ok node
  pub told : api.get_allowed_topology before_terms class.provisioner node ≡ ok terms
  pub restricted : terms ≢ []
  pub copied : sc ≡ record class {
    meta = record (class.meta) { uid = ""; resource_version = ""; name = name };
    volume_binding_mode = some "Immediate";
    allowed_topologies = terms;
  }
