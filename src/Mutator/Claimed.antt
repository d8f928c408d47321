-- ===== src/Mutator/Claimed.antt =====
-- mutators/pod_mutator.go: the calls that Handle makes about the claim of one DiskConfig.
use discoblock.Base.{
  if◌then◌else◌, ◌⧺◌, ℕ, String, Bool, false, Option, none, some, List, [], ◌∷◌, Map, ◌≡◌, ◌≢◌, ◌⊎◌,
  inl, inr, refl, get, arith, str_eq, All, All-map, All-Among, Among,
}
use discoblock.Base.Int.{ℤ}
use discoblock.Kube.Objects.{DiskConfig, Pvc, Pod, Node, StorageClass, TopologyTerm}
use discoblock.Kube.Exec.{Result, ok, err, pure}
use discoblock.Kube.Exec.Emits.{
  Emits, emit_rules, Emits-if, Emits-pure, Emits-then, Emits-bind, Emits-attempt, Emits-return,
}
use discoblock.Kube.Exec.Returns.{Returns, Any, Returns-return, Returns-attempt-told}
use discoblock.Kube.Api.{Api, ApiError, Call, History}
use discoblock.Utils.Names.{render_finalizer}
use discoblock.Utils.Decorate.{
  pvc_decorator, with_name, new_storage_class, get_target_node_by_affinity,
}
use discoblock.Utils.Decorate.Topology.{IsTopologyClass}
use discoblock.Mutator.Common.{Request, Library, error_mode, internal_error}
use discoblock.Mutator.Claims.{
  is_once, with_class, on_class, create_class, on_terms, topology_class, add_claim_finalizer,
  index_of, child_index, add_live_child, add_child, add_children, find_children, reuse_claim,
  on_claim, create_claim,
}
use discoblock.Mutator.{is_dry}

module _ (lib : Library) (api : Api) (request : Request) where
  -- The server listed the DiskConfig for the namespace of the request.
  abbrev pub IsListed : DiskConfig → Type 0
  IsListed config =
      (h : History) × (configs : List DiskConfig) × (api.list_disk_configs h
          (some request.namespace)
        ≡ ok configs)
      × Among config configs

  -- the node that the affinity of the request's pod names
  abbrev pub IsTarget : String → Type 0
  IsTarget node_name =
      (pod : Pod) × (lib.decode_pod request.raw ≡ ok pod)
      × (node_name ≡ get_target_node_by_affinity pod.affinity)

  -- The claim has the finalizer, the label and the capacity of the DiskConfig.
  abbrev pub IsManaged : DiskConfig → Pvc → Type 0
  IsManaged config pvc =
      (pvc.finalizers ≡ render_finalizer config.name [] ∷ [])
      × (get pvc.labels "discoblocks" ≡ some config.name)
      × (pvc.request ≡ config.spec.capacity)

  -- The server answered the claim, alone or in a list of the children of a claim.
  abbrev pub IsAnswered : DiskConfig → Pvc → Type 0
  IsAnswered config pvc =
      ((h : History) × (namespace : String) × (name : String) × (api.get_pvc h namespace name
          ≡ ok pvc))
      ⊎ ((h : History) × (parent : Pvc) × (pvcs : List Pvc) × (api.list_pvcs h config.namespace
              "discoblocks-parent" parent.name
            ≡ ok pvcs)
          × Among pvc pvcs)

  -- What Handle may call.
  abbrev pub Writes : Call → Type 0
  Writes (Call.create_pvc pvc) =
      (is_dry request.dry_run ≡ false)
      × ((config : DiskConfig) × IsListed config × IsManaged config pvc)
  Writes (Call.update_pvc pvc) =
      (is_dry request.dry_run ≡ false)
      × ((config : DiskConfig) × (old : Pvc) × IsListed config
          × IsAnswered config old
          × (pvc ≡ record old {
            meta = record (old.meta) {
              finalizers = api.add_finalizer old.finalizers (render_finalizer config.name []);
            };
          }))
  Writes (Call.create_storage_class sc) =
      (is_dry request.dry_run ≡ false)
      × ((config : DiskConfig) × (node_name : String) × IsListed config
          × IsTarget node_name
          × IsTopologyClass api config.spec.storage_class_name node_name sc)
  Writes (Call.create_secret namespace name) = name ≡ "discoblocks-metrics-cert"
  Writes (Call.list_disk_configs _) = Unit
  Writes (Call.get_storage_class _) = Unit
  Writes (Call.get_node _) = Unit
  Writes (Call.get_pvc _ _) = Unit
  Writes (Call.list_pvcs _ _ _) = Unit
  Writes (Call.get_pvc_stub _ _ _ _) = Unit
  Writes (Call.get_allowed_topology _ _) = Unit
  Writes _ = ⊥

-- sort.Slice invents no claim.
pub record Sorts (lib : Library) : Type 1 where
  pub kept : (P : Pvc → Type 0) (l : List Pvc) → All P l → All P (lib.by_creation l)

module _ (lib : Library) (api : Api) (strict : Bool) (request : Request) where
  abbrev Allowed : Call → Type 0
  Allowed c = Writes lib api request c

  pub error_mode-Never :
      {A : Type 0} {Q : A → Type 0} (code : ℕ) (reason error : String)
      → Returns (Unit {0}) Any Q (error_mode {A = A} strict code reason error)
  unfolding error_mode
  error_mode-Never code reason error = Returns-return _ tt

  pub error_mode-Emits :
      {A : Type 0} (code : ℕ) (reason error : String)
      → Emits Allowed (error_mode {A = A} strict code reason error)
  unfolding error_mode
  error_mode-Emits code reason error = search emit_rules

  -- the class of a DiskConfig, as the server answered it
  abbrev pub IsClass : DiskConfig → StorageClass → Type 0
  IsClass config sc =
      (h : History) × (api.get_storage_class h config.spec.storage_class_name ≡ ok sc)

  module _ (wet : is_dry request.dry_run ≡ false) (sorts : Sorts lib) (config : DiskConfig)
      (listed : IsListed lib api request config) where
    abbrev IsNode : String → Node → Type 0
    IsNode node_name node = (h : History) × (api.get_node h node_name ≡ ok node)

    abbrev AreTerms : StorageClass → String → List TopologyTerm → Type 0
    AreTerms sc node_name terms =
        (node : Node) × (h : History) × IsNode node_name node
        × (api.get_allowed_topology h sc.provisioner node ≡ ok terms)

    on_class-Emits :
        (sc : StorageClass) (r : Result ApiError (Unit {0}))
        → Emits Allowed (on_class lib api strict sc r)
    on_class-Emits sc (ok u) = search emit_rules
    on_class-Emits sc (err e) = search emit_rules

    named_class-Emits :
        (sc : StorageClass) (node_name : String) (terms : List TopologyTerm) (name : Option String)
        → IsClass config sc
        → IsTarget lib api request node_name
        → AreTerms sc node_name terms
        → terms ≢ []
        → Emits Allowed (create_class lib api strict (with_name sc terms name))
    named_class-Emits sc node_name terms none is target are some_terms = error_mode-Emits _ _ _
    named_class-Emits sc node_name terms (some name) (h, found) target
          (node, g, (f, node_found), told) some_terms =
        let new : StorageClass = record sc {
          meta = record (sc.meta) { uid = ""; resource_version = ""; name = name };
          volume_binding_mode = some "Immediate";
          allowed_topologies = terms;
        } in
        let is : IsTopologyClass api config.spec.storage_class_name node_name new = record {
          before_class = h;
          before_node = f;
          before_terms = g;
          class = sc;
          node = node;
          terms = terms;
          name = name;
          found = found;
          node_found = node_found;
          told = told;
          restricted = some_terms;
          copied = refl;
        } in
        let allowed : Allowed (Call.create_storage_class new) =
          (wet, (config, node_name, listed, target, is)) in
        search (emit_rules, on_class-Emits, allowed)

    on_terms-Emits :
        (sc : StorageClass) (node_name : String) (terms : List TopologyTerm)
        → IsClass config sc
        → IsTarget lib api request node_name
        → AreTerms sc node_name terms
        → Emits Allowed (on_terms lib api strict sc terms)
    unfolding new_storage_class
    on_terms-Emits sc node_name [] is target are = search emit_rules
    on_terms-Emits sc node_name (t ∷ ts) is target are =
        named_class-Emits sc node_name (t ∷ ts) _ is target are (λ e. ground (arith, e))

    topology_class-Emits :
        (sc : StorageClass) (node_name : String)
        → IsClass config sc
        → IsTarget lib api request node_name
        → Emits Allowed (topology_class lib api strict sc node_name)
    unfolding topology_class
    topology_class-Emits sc node_name is target =
        Emits-if (str_eq node_name "") _ _ (λ _. Emits-pure none)
          (λ _.
            Emits-then (Unit {0}) Any (IsNode node_name) _ _
              (Returns-attempt-told _ _ _ (λ e. Returns-return _ tt) λ h node told. (h, told))
              (Emits-attempt _ _ _ tt λ e. Emits-return _)
              λ node there.
                Emits-then (Unit {0}) Any (AreTerms sc node_name) _ _
                  (Returns-attempt-told _ _ _ (λ e. error_mode-Never _ _ _)
                    λ h terms told. (node, h, there, told))
                  (Emits-attempt _ _ _ tt λ e. error_mode-Emits _ _ _)
                  λ terms are. on_terms-Emits sc node_name terms is target are)

    add_finalizer-Emits :
        (pvc : Pvc)
        → IsAnswered lib api request config pvc
        → Emits Allowed (add_claim_finalizer lib api strict pvc (render_finalizer config.name []))
    add_finalizer-Emits pvc answered =
        let allowed : Allowed (
            Call.update_pvc (record pvc {
              meta = record (pvc.meta) {
                finalizers = api.add_finalizer pvc.finalizers (render_finalizer config.name []);
              };
            })) =
          (wet, (config, pvc, listed, answered, refl)) in
        search (emit_rules, allowed)

    index_of-Emits :
        (text : String) (index : Option ℤ) → Emits Allowed (index_of lib api strict text index)
    index_of-Emits text none = error_mode-Emits _ _ _
    index_of-Emits text (some index) = search emit_rules

    child_index-Emits : (text : Option String) → Emits Allowed (child_index lib api strict text)
    child_index-Emits none = error_mode-Emits _ _ _
    child_index-Emits (some text) = index_of-Emits text _

    add_child-Emits :
        (deleted : Option ℕ) (child : Pvc) (mounts : Map String)
        → IsAnswered lib api request config child
        → Emits Allowed (add_child lib api strict deleted config child mounts)
    unfolding add_live_child
    add_child-Emits (some t) child mounts answered = search emit_rules
    add_child-Emits none child mounts answered =
        search (emit_rules, add_finalizer-Emits, answered, child_index-Emits)

    add_children-Emits :
        (children : List Pvc) (mounts : Map String)
        → All (IsAnswered lib api request config) children
        → Emits Allowed (add_children lib api strict config children mounts)
    unfolding add_children
    add_children-Emits [] mounts answered = search emit_rules
    add_children-Emits (child ∷ rest) mounts answered =
        Emits-bind _ _ (add_child-Emits child.deleted child mounts answered.0)
          λ mounts'. add_children-Emits rest mounts' answered.1

    unless-Emits :
        (b : Bool) (code : ℕ) (reason error : String)
        → Emits Allowed (if b then pure tt else error_mode strict code reason error)
    unless-Emits b code reason error = search (emit_rules, error_mode-Emits)

    find_children-Emits :
        (pvc : Pvc) (mounts : Map String)
        → Emits Allowed (find_children lib api strict config pvc mounts)
    unfolding find_children
    find_children-Emits pvc mounts =
        Emits-bind _ _
          (unless-Emits (api.is_requirement "discoblocks-parent" pvc.name) internal_error
            ("Unable to parse PVC label selectors: discoblocks-parent=" ⧺ pvc.name)
            ("unable to parse PVC label selectors: "
              ⧺ lib.selector_error "discoblocks-parent" pvc.name))
          λ _.
            Emits-then (Unit {0}) Any (All (IsAnswered lib api request config)) _ _
              (Returns-attempt-told _ _ _ (λ e. Returns-return _ tt)
                λ h pvcs told.
                  All-map (λ child k. inr (h, pvc, pvcs, told, k)) pvcs (All-Among pvcs))
              (Emits-attempt _ _ _ tt λ e. Emits-return _)
              λ pvcs answered.
                add_children-Emits (lib.by_creation pvcs) mounts (sorts.kept _ pvcs answered)

    reuse_claim-Emits :
        (pvc : Pvc) (mounts : Map String)
        → Emits Allowed (reuse_claim lib api strict config pvc mounts)
    unfolding reuse_claim
    reuse_claim-Emits pvc mounts =
        Emits-then (Unit {0}) Any (IsAnswered lib api request config) _ _
          (Returns-attempt-told _ _ _ (λ e. Returns-return _ tt)
            λ h old told. inl (h, pvc.namespace, pvc.name, told))
          (Emits-attempt _ _ _ tt λ e. Emits-return _)
          λ old answered. Emits-bind _ _ (add_finalizer-Emits old answered) λ _.
            Emits-if (is_once config.spec.availability_mode) _ _ (λ _. Emits-pure mounts)
              (λ _. find_children-Emits old mounts)

    on_claim-Emits :
        (pvc : Pvc) (mounts : Map String) (r : Result ApiError (Unit {0}))
        → Emits Allowed (on_claim lib api strict config pvc mounts r)
    on_claim-Emits pvc mounts (ok u) = search emit_rules
    on_claim-Emits pvc mounts (err e) = search (emit_rules, reuse_claim-Emits)

    managed :
        (stub : Pvc) (name : Option String)
        → IsManaged lib api request config (with_class name (pvc_decorator config stub))
    unfolding pvc_decorator get
    managed stub none = (refl, refl, refl)
    managed stub (some name) = (refl, refl, refl)

    managed_call :
        (stub : Pvc) (name : Option String)
        → Allowed (Call.create_pvc (with_class name (pvc_decorator config stub)))
    managed_call stub name = (wet, (config, listed, managed stub name))

    pub create_claim-Emits :
        (sc : StorageClass) (node_name : String) (stub : Pvc) (mounts : Map String)
        → IsClass config sc
        → IsTarget lib api request node_name
        → Emits Allowed
            (create_claim lib api strict config sc node_name (pvc_decorator config stub) mounts)
    unfolding create_claim
    create_claim-Emits sc node_name stub mounts is target =
        search (emit_rules, topology_class-Emits, is, target, managed_call, on_claim-Emits) depth 8
