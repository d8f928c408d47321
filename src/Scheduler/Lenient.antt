-- ===== src/Scheduler/Lenient.antt =====
-- schedulers/pod.go: the Filter without strict mode.
use discoblock.Base.{Option, none, some, refl, ◌≡◌, String, false, List, [], ◌∷◌, Map, ◌≢◌, arith}
use discoblock.Kube.Objects.{Pod, Node}
use discoblock.Kube.Exec.Returns.{Returns, Any, return_rules, Returns-crash}
use discoblock.Kube.Api.{Api}
use discoblock.Scheduler.{
  Code, Status, NodeInfo, check_class, check_labels, check_node, filter_node, on_node, filter,
}

abbrev pub Calm : Status → Type 0
Calm s = s.code ≢ Code.error

module _ (api : Api) (info : NodeInfo) where
  -- There is no node.
  abbrev X : Type 0
  X = info.node ≡ none

  success-Calm : Code.success ≢ Code.error
  success-Calm e = ground arith

  unschedulable-Calm : Code.unschedulable ≢ Code.error
  unschedulable-Calm e = ground arith

  check_class-Calm : (name : String) → Returns X Calm Any (check_class api false info name)
  unfolding check_class
  check_class-Calm name = search (return_rules, success-Calm, unschedulable-Calm) depth 8

  check_labels-Calm :
      (node : Node) (selector : Map String) → Calm (check_labels api false info node selector)
  unfolding check_labels
  check_labels-Calm node [] = success-Calm
  check_labels-Calm node (kv ∷ selector) = ground arith

  check_node-Calm :
      (node : Node) (order : List String → List String) (names : List String)
      (selector : Map String)
      → Returns X Calm Calm (check_node api false info node order names selector)
  unfolding check_node
  check_node-Calm node order [] selector = search (return_rules, success-Calm)
  check_node-Calm node order (name ∷ names) selector =
      search (return_rules, check_class-Calm, check_labels-Calm)

  filter_node-Calm :
      (node : Node) (order : List String → List String) (pod : Pod)
      → Returns X Calm Calm (filter_node api false info node order pod)
  unfolding filter_node
  filter_node-Calm node order pod = search (return_rules, success-Calm, check_node-Calm)

  on_node-Calm :
      (o : Option Node) (order : List String → List String) (pod : Pod)
      → info.node ≡ o
      → Returns X Calm Calm (on_node api false info o order pod)
  on_node-Calm none order pod e = Returns-crash e
  on_node-Calm (some node) order pod e = filter_node-Calm node order pod

  -- Without strict mode the Filter never answers an error, whatever the server and the drivers answer,
  -- and it panics only where it is given no node.
  pub filter-Calm :
      (order : List String → List String) (pod : Pod)
      → Returns (info.node ≡ none) Calm Calm (filter api false info order pod)
  unfolding filter
  filter-Calm order pod = on_node-Calm info.node order pod refl
