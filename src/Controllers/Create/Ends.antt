-- ===== src/Controllers/Create/Ends.antt =====
-- controllers/pvc_controller.go: the end of createPVC.
use discoblock.Base.{ℕ, String, Option, none, some, List, [], ◌∷◌, arith}
use discoblock.Base.Int.{ℤ}
use discoblock.Kube.Objects.{DiskConfig, Pvc, Pod, StorageClass, TopologyTerm}
use discoblock.Kube.Exec.{Result, ok, err}
use discoblock.Kube.Exec.Returns.{Any, Ends}
use discoblock.Kube.Exec.After.{After, after_rules, After-now, After-bind, After-attempt}
use discoblock.Kube.Api.{Api, Action, ApiError, History}
use discoblock.Utils.Decorate.{new_storage_class}
use discoblock.Controllers.Volumes.{End}
use discoblock.Controllers.Volumes.Rules.{Finished}
use discoblock.Controllers.Volumes.Timed.{
  give_up-After, find_class-After, find_driver-After, find_wait_meta-After,
}
use discoblock.Controllers.Waits.Enough.{Ticks}
use discoblock.Controllers.Create.{claim_name, find_node, find_stub, create_and_mount, create_pvc}
use discoblock.Controllers.Create.Topology.{on_class_created, create_class, topology_class}
use discoblock.Controllers.Create.Waiting.{AttachmentUnclear, mount_claim-After}

module _ (other : String → ℤ → String) (api : Api) (ticks : Ticks api) (config : DiskConfig)
    (pod : Pod) where
  abbrev Cause : Type 0
  Cause = AttachmentUnclear api

  module _ (t : ℕ) where
    abbrev Later : {A : Type 0} → Action End A → Type 0
    Later m = After api.now t Cause Finished Any m

    create_and_mount-After :
        (parent pvc : Pvc) (container_ids : List String) (node_name : String) (index : ℤ)
        (provisioner wait_for_meta : String)
        → Later (
            create_and_mount other api config pod parent pvc container_ids node_name index
              provisioner wait_for_meta)
    unfolding create_and_mount
    create_and_mount-After parent pvc container_ids node_name index provisioner wait_for_meta =
        After-bind _ _ (After-attempt _ _ _ ticks.steady λ e. give_up-After api ticks.steady _) λ _.
          After-now t _ λ start late.
            mount_claim-After other api ticks config pod start start (omega arith) parent pvc
              container_ids node_name index provisioner wait_for_meta

    on_class_created-After :
        (sc : StorageClass) (r : Result ApiError (Unit {0}))
        → Later (on_class_created api config pod sc r)
    on_class_created-After sc (ok u) = search after_rules
    on_class_created-After sc (err e) =
        search (after_rules, ticks.steady, give_up-After api ticks.steady) depth 10

    create_class-After : (sc : Option StorageClass) → Later (create_class api config pod sc)
    create_class-After none = give_up-After api ticks.steady _
    create_class-After (some sc) = search (after_rules, ticks.steady, on_class_created-After)

    topology_class-After :
        (sc : StorageClass) (terms : List TopologyTerm)
        → Later (topology_class api config pod sc terms)
    unfolding topology_class
    topology_class-After sc [] = search after_rules
    topology_class-After sc (x ∷ xs) = create_class-After (new_storage_class sc (x ∷ xs))

    claim_name-After : Later (claim_name other api config pod)
    unfolding claim_name
    claim_name-After = search after_rules

    find_node-After : (name : String) → Later (find_node other api config pod name)
    unfolding find_node
    find_node-After name = search (after_rules, ticks.steady, give_up-After api ticks.steady)

    find_stub-After :
        (provisioner name : String) → Later (find_stub other api config pod provisioner name)
    unfolding find_stub
    find_stub-After provisioner name =
        search (after_rules, ticks.steady, give_up-After api ticks.steady)

    create_pvc-After :
        (parent : Pvc) (container_ids : List String) (node_name : String) (index : ℤ)
        → Later (create_pvc other api config pod parent container_ids node_name index)
    unfolding create_pvc
    create_pvc-After parent container_ids node_name index =
        search
          (
            after_rules,
            ticks.steady,
            give_up-After api ticks.steady,
            find_class-After api ticks.steady,
            find_driver-After api ticks.steady,
            find_wait_meta-After api ticks.steady,
            claim_name-After,
            find_node-After,
            find_stub-After,
            topology_class-After,
            create_and_mount-After,
          )
          depth 12

  -- Under a clock that never goes back and timers that take their time, createPVC comes to an end: the
  -- rounds of its three waits are enough. It panics only where the server lists no single attachment.
  pub create_pvc-Ends :
      (parent : Pvc) (container_ids : List String) (node_name : String) (index : ℤ) (h : History)
      → Ends
          (AttachmentUnclear api)
          Finished
          Any
          (create_pvc other api config pod parent container_ids node_name index h).0
  create_pvc-Ends parent container_ids node_name index h =
      ((create_pvc-After 0 parent container_ids node_name index).at h (omega arith)).0
