-- ===== src/Controllers/Nodes/Latest.antt =====
-- controllers/node_controller.go: the cache over the events of its nodes.
use discoblock.Base.{
  String, ◌≡◌, Option, none, some, List, [], ◌∷◌, ap, sym, ◌∙◌, refl, Bool-cases, inl, inr, arith,
  eq_iff, All, get, get-put, get-remove, if◌then◌else◌, str_eq,
}
use mathlib.Core.Path.{subst}
use discoblock.Kube.Objects.{Node}
use discoblock.Controllers.Nodes.{
  Nodes, NodeEvent, created, updated, deleted, generic, scan_addresses, on_create, handle_all,
}

-- The last address of a kind, or a default.
abbrev pub address_of : String → List (String × String) → String → String
address_of kind [] address = address
address_of kind ((k, a) ∷ rest) address =
    address_of kind rest (if str_eq k kind then a else address)

two_kinds :
    (k a ip : String)
    → (if str_eq k "Hostname" then ip else if str_eq k "InternalIP" then a else ip)
      ≡ (if str_eq k "InternalIP" then a else ip)
two_kinds k a ip = elim (Bool-cases (str_eq k "Hostname")) [
  | inl e ↦
      subst
        (λ (x : String).
          (if str_eq x "Hostname" then ip else if str_eq x "InternalIP" then a else ip)
          ≡ (if str_eq x "InternalIP" then a else ip))
        (sym ((eq_iff k "Hostname").0 e)) refl
  | inr e ↦ rw (e) refl
]

scan_addresses-address_of :
    (addresses : List (String × String)) (name ip : String)
    → scan_addresses addresses name ip
      ≡ (address_of "Hostname" addresses name, address_of "InternalIP" addresses ip)
unfolding scan_addresses
scan_addresses-address_of [] name ip = refl
scan_addresses-address_of ((k, a) ∷ rest) name ip =
    scan_addresses-address_of rest (if str_eq k "Hostname" then a else name)
      (if str_eq k "Hostname" then ip else if str_eq k "InternalIP" then a else ip)
    ∙ ap
        (λ i. (
          address_of "Hostname" rest (if str_eq k "Hostname" then a else name),
          address_of "InternalIP" rest i,
        ))
        (two_kinds k a ip)

-- What the latest event about a name leaves: its internal IP, or nothing after a deletion.
abbrev pub latest : List NodeEvent → String → Option String
latest [] name = none
latest (created node ∷ earlier) name =
    if str_eq node.name name
    then some (address_of "InternalIP" node.addresses "")
    else latest earlier name
latest (updated old node ∷ earlier) name =
    if str_eq node.name name
    then some (address_of "InternalIP" node.addresses "")
    else latest earlier name
latest (deleted node ∷ earlier) name = if str_eq node.name name then none else latest earlier name
latest (generic ∷ earlier) name = latest earlier name

-- A node that is stored is stored under its object name.
abbrev pub IsNamed : NodeEvent → Type 0
IsNamed (created node) = address_of "Hostname" node.addresses "" ≡ node.name
IsNamed (updated old node) = address_of "Hostname" node.addresses "" ≡ node.name
IsNamed _ = Unit

on_create-get :
    (nodes : Nodes) (node : Node) (name : String)
    → address_of "Hostname" node.addresses "" ≡ node.name
    → get (on_create nodes node) name ≡ (
        if str_eq node.name name
        then some (address_of "InternalIP" node.addresses "")
        else get nodes name)
unfolding on_create
on_create-get nodes node name named =
    rw (scan_addresses-address_of node.addresses "" "", named)
      (get-put nodes node.name name (address_of "InternalIP" node.addresses ""))

-- Over any sequence of events about nodes whose Hostname address is their object name, the cache holds
-- for a name the internal IP in the latest event about it, and nothing if that is a deletion or there
-- is none.
pub handle_all-latest :
    (events : List NodeEvent) (name : String)
    → All IsNamed events
    → get (handle_all events) name ≡ latest events name
unfolding handle_all get
handle_all-latest [] name named = refl
handle_all-latest (created node ∷ earlier) name named =
    on_create-get (handle_all earlier) node name named.0
    ∙ ground (arith, handle_all-latest earlier name named.1)
handle_all-latest (updated old node ∷ earlier) name named =
    on_create-get (handle_all earlier) node name named.0
    ∙ ground (arith, handle_all-latest earlier name named.1)
handle_all-latest (deleted node ∷ earlier) name named =
    get-remove (handle_all earlier) node.name name
    ∙ ground (arith, handle_all-latest earlier name named.1)
handle_all-latest (generic ∷ earlier) name named = handle_all-latest earlier name named.1
