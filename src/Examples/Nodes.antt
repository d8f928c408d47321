-- ===== src/Examples/Nodes.antt =====
-- controllers/node_controller.go: the cache after a node came, got another address and another came
-- and went.
use discoblock.Base.{[], ◌∷◌, some, ◌≡◌, refl, get}
use discoblock.Kube.Objects.{Node}
use discoblock.Controllers.Nodes.{NodeEvent, handle_all, created, updated, deleted, generic}
use discoblock.Controllers.Nodes.Latest.{handle_all-latest}
use discoblock.Examples.World.{node}
use discoblock.Base.{String, List}

abbrev named : String → String → Node
named name ip = record {
  meta = record (node.meta) { name = name };
  addresses = ("InternalIP", ip) ∷ ("Hostname", name) ∷ [];
}

abbrev events : List NodeEvent
events =
    deleted (named "b" "10.0.0.3")
    ∷ generic
    ∷ updated (named "a" "10.0.0.1") (named "a" "10.0.0.2")
    ∷ created (named "b" "10.0.0.3")
    ∷ created (named "a" "10.0.0.1")
    ∷ []

handle_all-latest_example : get (handle_all events) "a" ≡ some "10.0.0.2"
handle_all-latest_example = handle_all-latest events "a" (tt, (tt, (refl, (refl, (refl, tt)))))
