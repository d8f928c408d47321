-- ===== src/Controllers/Nodes.antt =====
-- controllers/node_controller.go: the cache of node names by address. The lock `nodesLock` is held
-- for the whole of each handler, so each is one step.
pub mod ByIp
pub mod Latest
use discoblock.Base.{
  String, ◌≡◌, Bool, true, false, Option, none, some, List, [], ◌∷◌, if◌then◌else◌, str_eq, Map,
  get, put, remove,
}
use discoblock.Kube.Objects.{Node}

-- `r.nodes`: host name to internal IP
abbrev pub Nodes : Type 0
Nodes = Map String

-- the loop over status.addresses, with `nodeName` and `nodeIP`
unfoldable pub scan_addresses : List (String × String) → String → String → String × String
scan_addresses [] node_name node_ip = (node_name, node_ip)
scan_addresses ((kind, address) ∷ rest) node_name node_ip =
    scan_addresses rest (if str_eq kind "Hostname" then address else node_name) (
      if str_eq kind "Hostname"
      then node_ip
      else if str_eq kind "InternalIP"
      then address
      else node_ip)

unfoldable pub on_create : Nodes → Node → Nodes
unfolding scan_addresses
on_create nodes node =
    let (node_name, node_ip) = scan_addresses node.addresses "" "" in put nodes node_name node_ip

-- `Update` creates the new object.
unfoldable pub on_update : Nodes → Node → Node → Nodes
unfolding on_create
on_update nodes old new = on_create nodes new

unfoldable pub on_delete : Nodes → Node → Nodes
on_delete nodes node = remove nodes node.name

-- the events that the handler is registered for, and what it does with one
pub data NodeEvent : Type 0 where
  created deleted : Node → NodeEvent
  updated : Node → Node → NodeEvent
  generic : NodeEvent

unfoldable pub handle : Nodes → NodeEvent → Nodes
unfolding on_create on_update on_delete
handle nodes (created node) = on_create nodes node
handle nodes (updated old new) = on_update nodes old new
handle nodes (deleted node) = on_delete nodes node
handle nodes generic = nodes

-- The cache after events, the latest first; SetupWithManager makes it empty.
unfoldable pub handle_all : List NodeEvent → Nodes
unfolding handle
handle_all [] = []
handle_all (event ∷ earlier) = handle (handle_all earlier) event

-- `for k, v := range r.nodes { nodes[v] = k }`, over the entries in the order that Go visits them
unfoldable pub invert : List (String × String) → Map String → Map String
invert [] nodes = nodes
invert ((k, v) ∷ rest) nodes = invert rest (put nodes v k)

unfoldable pub get_nodes_by_ip : List (String × String) → Map String
unfolding invert
get_nodes_by_ip entries = invert entries []
