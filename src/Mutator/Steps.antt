-- ===== src/Mutator/Steps.antt =====
-- mutators/pod_mutator.go: what the steps of Handle come to.
use discoblock.Base.{
  ℕ, String, Bool, Bool-cases, true, false, Option, none, some, List, [], ◌∷◌, Map, ◌≡◌, refl, inl,
  inr, any, str_eq,
}
use discoblock.Base.Int.{ℤ}
use discoblock.Kube.Objects.{
  DiskConfig, Pvc, Pod, StorageClass, TopologyTerm, OwnerReference, AvailabilityMode,
  read_write_same, read_write_once, read_write_daemon, unknown_mode,
}
use discoblock.Kube.Exec.{Result, ok, err, require, crash}
use discoblock.Kube.Exec.Returns.{
  Returns, Any, return_rules, Returns-if, Returns-pure, Returns-return, Returns-crash, Returns-bind,
  Returns-require, Returns-some,
}
use discoblock.Kube.Api.{Api, Action, ApiError, History}
use discoblock.Utils.Names.{get_name_prefix}
use discoblock.Utils.Decorate.{new_storage_class}
use discoblock.Mutator.Common.{Request, Response, allowed, errored, patched, Library, error_mode}
use discoblock.Mutator.Claims.{
  on_class, create_class, on_terms, topology_class, add_claim_finalizer, index_of, child_index,
  add_live_child, add_child, add_children, find_children, reuse_claim, on_claim, create_claim,
}
use discoblock.Mutator.{
  daemon_types, owned_name, fresh_name, name_pod, find_class, claim_name, find_stub, claim_mounts,
}

-- The answer is no patch.
abbrev pub IsPlain : Response → Type 0
IsPlain (allowed reason) = Unit
IsPlain (errored code error) = Unit
IsPlain (patched raw text) = ⊥

abbrev pub is_unknown : AvailabilityMode → Bool
is_unknown (unknown_mode m) = true
is_unknown _ = false

abbrev pub has_unknown : DiskConfig → Bool
has_unknown config = is_unknown config.spec.availability_mode

-- The server lists a DiskConfig whose availability mode is none of the three.
abbrev pub ListsUnknown : Api → Type 0
ListsUnknown api =
    (h : History) × (namespace : Option String) × (configs : List DiskConfig)
    × (api.list_disk_configs h namespace ≡ ok configs)
    × (any has_unknown configs ≡ true)

module _ (lib : Library) (api : Api) (strict : Bool) (request : Request) where
  abbrev Fine : {A : Type 0} → Action Response A → Type 0
  Fine m = Returns (ListsUnknown api) IsPlain Any m

  pub error_mode-Returns :
      {A : Type 0} {Q : A → Type 0} (code : ℕ) (reason error : String)
      → Returns (ListsUnknown api) IsPlain Q (error_mode {A = A} strict code reason error)
  unfolding error_mode
  error_mode-Returns code reason error = elim (Bool-cases strict) [
    | inl e ↦ rw (e) (Returns-return _ tt)
    | inr e ↦ rw (e) (Returns-return _ tt)
  ]

  on_class-Returns :
      (sc : StorageClass) (r : Result ApiError (Unit {0})) → Fine (on_class lib api strict sc r)
  on_class-Returns sc (ok u) = search return_rules
  on_class-Returns sc (err e) = search return_rules

  create_class-Returns : (sc : Option StorageClass) → Fine (create_class lib api strict sc)
  create_class-Returns none = error_mode-Returns _ _ _
  create_class-Returns (some sc) = search (return_rules, on_class-Returns)

  on_terms-Returns :
      (sc : StorageClass) (terms : List TopologyTerm) → Fine (on_terms lib api strict sc terms)
  on_terms-Returns sc [] = search return_rules
  on_terms-Returns sc (t ∷ ts) = create_class-Returns (new_storage_class sc (t ∷ ts))

  topology_class-Returns :
      (sc : StorageClass) (node_name : String) → Fine (topology_class lib api strict sc node_name)
  unfolding topology_class
  topology_class-Returns sc node_name =
      search (return_rules, on_terms-Returns, error_mode-Returns) depth 9

  add_finalizer-Returns :
      (pvc : Pvc) (finalizer : String) → Fine (add_claim_finalizer lib api strict pvc finalizer)
  add_finalizer-Returns pvc finalizer = search return_rules

  index_of-Returns : (text : String) (index : Option ℤ) → Fine (index_of lib api strict text index)
  index_of-Returns text none = error_mode-Returns _ _ _
  index_of-Returns text (some index) = search return_rules

  child_index-Returns : (text : Option String) → Fine (child_index lib api strict text)
  child_index-Returns none = error_mode-Returns _ _ _
  child_index-Returns (some text) = index_of-Returns text _

  add_child-Returns :
      (deleted : Option ℕ) (config : DiskConfig) (child : Pvc) (mounts : Map String)
      → Fine (add_child lib api strict deleted config child mounts)
  unfolding add_live_child
  add_child-Returns (some t) config child mounts = search return_rules
  add_child-Returns none config child mounts =
      search (return_rules, add_finalizer-Returns, child_index-Returns)

  add_children-Returns :
      (config : DiskConfig) (children : List Pvc) (mounts : Map String)
      → Fine (add_children lib api strict config children mounts)
  unfolding add_children
  add_children-Returns config [] mounts = search return_rules
  add_children-Returns config (child ∷ rest) mounts =
      Returns-bind _ _ (add_child-Returns child.deleted config child mounts)
        λ mounts'. add_children-Returns config rest mounts'

  find_children-Returns :
      (config : DiskConfig) (pvc : Pvc) (mounts : Map String)
      → Fine (find_children lib api strict config pvc mounts)
  unfolding find_children
  find_children-Returns config pvc mounts =
      search (return_rules, add_children-Returns, error_mode-Returns) depth 9

  reuse_claim-Returns :
      (config : DiskConfig) (pvc : Pvc) (mounts : Map String)
      → Fine (reuse_claim lib api strict config pvc mounts)
  unfolding reuse_claim
  reuse_claim-Returns config pvc mounts =
      search (return_rules, add_finalizer-Returns, find_children-Returns) depth 9

  on_claim-Returns :
      (config : DiskConfig) (pvc : Pvc) (mounts : Map String) (r : Result ApiError (Unit {0}))
      → Fine (on_claim lib api strict config pvc mounts r)
  on_claim-Returns config pvc mounts (ok u) = search return_rules
  on_claim-Returns config pvc mounts (err e) = search (return_rules, reuse_claim-Returns)

  pub claim_mounts-Returns :
      (config : DiskConfig) (sc : StorageClass) (node_name : String) (pvc : Pvc)
      → Fine (claim_mounts lib api strict request config sc node_name pvc)
  unfolding claim_mounts create_claim
  claim_mounts-Returns config sc node_name pvc =
      search (return_rules, topology_class-Returns, on_claim-Returns) depth 9

  pub daemon_types-Returns :
      (node_name : String) (pod : Pod) (types : List AvailabilityMode) (mode : AvailabilityMode)
      → Fine (daemon_types lib api strict node_name pod types mode)
  daemon_types-Returns node_name pod types read_write_daemon =
      search (return_rules, error_mode-Returns)
  daemon_types-Returns node_name pod types read_write_same = search return_rules
  daemon_types-Returns node_name pod types read_write_once = search return_rules
  daemon_types-Returns node_name pod types (unknown_mode m) = search return_rules

  owned_name-Returns :
      (owners : List OwnerReference) (random now : String)
      → Fine (owned_name lib api strict owners random now)
  owned_name-Returns [] random now = search return_rules
  owned_name-Returns (o ∷ os) random now = search (return_rules, error_mode-Returns)

  fresh_name-Returns : (pod : Pod) → Fine (fresh_name lib api strict pod)
  unfolding fresh_name
  fresh_name-Returns pod = search (return_rules, owned_name-Returns)

  -- The name changes no volume.
  pub name_pod-Returns :
      (pod : Pod)
      → Returns
          (ListsUnknown api)
          IsPlain
          (λ named. named.volumes ≡ pod.volumes)
          (name_pod lib api strict pod)
  unfolding name_pod
  name_pod-Returns pod =
      Returns-if (str_eq pod.name "") _ _
        (λ _. Returns-bind _ _ (fresh_name-Returns pod) λ name. Returns-pure _ refl)
        (λ _. Returns-pure pod refl)

  pub find_class-Returns : (config : DiskConfig) → Fine (find_class lib api strict config)
  unfolding find_class
  find_class-Returns config = search (return_rules, error_mode-Returns) depth 8

  prefix-Returns :
      (mode : AvailabilityMode) (now uid node_name : String)
      → (is_unknown mode ≡ true → ListsUnknown api)
      → Fine (require (get_name_prefix mode now uid node_name) crash)
  unfolding get_name_prefix
  prefix-Returns read_write_same now uid node_name bad = Returns-some uid crash
  prefix-Returns read_write_once now uid node_name bad = Returns-some now crash
  prefix-Returns read_write_daemon now uid node_name bad = Returns-some node_name crash
  prefix-Returns (unknown_mode m) now uid node_name bad =
      Returns-require none crash (Returns-crash (bad refl))

  pub claim_name-Returns :
      (config : DiskConfig) (node_name : String)
      → (has_unknown config ≡ true → ListsUnknown api)
      → Fine (claim_name lib api strict config node_name)
  unfolding claim_name
  claim_name-Returns config node_name bad =
      search (return_rules, prefix-Returns, error_mode-Returns, bad) depth 8

  pub find_stub-Returns :
      (config : DiskConfig) (provisioner name : String)
      → Fine (find_stub lib api strict config provisioner name)
  unfolding find_stub
  find_stub-Returns config provisioner name = search (return_rules, error_mode-Returns)
