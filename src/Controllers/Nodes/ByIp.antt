-- ===== src/Controllers/Nodes/ByIp.antt =====
-- controllers/node_controller.go: the inverted map against the cache.
use discoblock.Base.{
  String, ◌≡◌, ◌≢◌, true, none, some, List, [], ◌∷◌, arith, eq_iff, eq_refl, is_some, All, Map, get,
  put, get-put, get-remove, Option-cases, inl, inr, ◌⊎◌,
}
use discoblock.Kube.Objects.{Node}
use discoblock.Controllers.Nodes.{
  Nodes, scan_addresses, on_create, on_delete, invert, get_nodes_by_ip,
}

-- The entry stands in the list.
abbrev Occurs : String → String → List (String × String) → Type 0
Occurs k v [] = ⊥
Occurs k v ((j, w) ∷ rest) = ((j ≡ k) × (w ≡ v)) ⊎ Occurs k v rest

-- The entries that an iteration over the map visits.
pub record Enumerates (entries : List (String × String)) (nodes : Nodes) : Type 0 where
  pub only : All (λ (e : String × String). get nodes e.0 ≡ some e.1) entries
  pub every : (k v : String) → get nodes k ≡ some v → Occurs k v entries

module _ (nodes : Nodes) where
  invert_sound :
      (entries : List (String × String)) (out : Map String) (ip name : String)
      → All (λ (e : String × String). get nodes e.0 ≡ some e.1) entries
      → (get out ip ≡ some name → get nodes name ≡ some ip)
      → get (invert entries out) ip ≡ some name
      → get nodes name ≡ some ip
  unfolding invert
  invert_sound [] out ip name h known e = known e
  invert_sound ((k, v) ∷ rest) out ip name h known e =
      invert_sound rest (put out v k) ip name h.1
        (λ q. ground (arith, get-put out v ip k, eq_iff v ip, h.0, known)) e

invert_keeps :
    (entries : List (String × String)) (out : Map String) (ip : String)
    → is_some (get out ip) ≡ true
    → is_some (get (invert entries out) ip) ≡ true
unfolding invert
invert_keeps [] out ip h = h
invert_keeps ((k, v) ∷ rest) out ip h =
    invert_keeps rest (put out v k) ip (ground (arith, get-put out v ip k))

invert_complete :
    (entries : List (String × String)) (out : Map String) (k ip : String)
    → Occurs k ip entries
    → is_some (get (invert entries out) ip) ≡ true
unfolding invert
invert_complete [] out k ip o = absurd o
invert_complete ((j, w) ∷ rest) out k ip (inl (a, b)) =
    invert_keeps rest (put out w j) ip (ground (arith, get-put out w ip j, eq_iff w ip))
invert_complete ((j, w) ∷ rest) out k ip (inr o) = invert_complete rest (put out w j) k ip o

-- Whatever the order in which the map is visited, GetNodesByIP gives for an address a node that has
-- it in the cache, and gives none exactly where no node has it.
pub get_nodes_by_ip_lem :
    (nodes : Nodes) (entries : List (String × String)) (ip : String)
    → Enumerates entries nodes
    → ((name : String) × (get (get_nodes_by_ip entries) ip ≡ some name)
        × (get nodes name ≡ some ip))
      ⊎ ((get (get_nodes_by_ip entries) ip ≡ none) × ((name : String) → get nodes name ≢ some ip))
unfolding get_nodes_by_ip get
get_nodes_by_ip_lem nodes entries ip e = elim (Option-cases (get (invert entries []) ip)) [
  | inl h ↦ inr (
    h,
    λ name k. let found = invert_complete entries [] name ip (e.every name ip k) in ground arith,
  )
  | inr (name, h) ↦
      inl (name, h, invert_sound nodes entries [] ip name e.only (λ q. absurd (ground arith)) h)
]

-- A node is stored under its host name and removed by its object name: where the two differ, its
-- address outlives it in the cache.
pub on_delete_stale :
    (nodes : Nodes) (node : Node) {host ip : String}
    → scan_addresses node.addresses "" "" ≡ (host, ip)
    → host ≢ node.name
    → get (on_delete (on_create nodes node) node) host ≡ some ip
unfolding on_delete on_create
on_delete_stale nodes node {host} {ip} h ne =
    rw (h, get-remove, get-put) (ground (arith, eq_iff node.name host, eq_refl host))
