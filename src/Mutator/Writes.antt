-- ===== src/Mutator/Writes.antt =====
-- mutators/pod_mutator.go: the calls of Handle.
use discoblock.Base.{
  ℕ, suc, String, Bool, List, [], ◌∷◌, Map, ◌≡◌, refl, zero, All, All-map, All-Among,
}
use discoblock.Kube.Objects.{
  Container, DiskConfig, Pvc, Pod, StorageClass, OwnerReference, AvailabilityMode, read_write_same,
  read_write_once, read_write_daemon, unknown_mode,
}
use discoblock.Kube.Exec.{Result, ok, err}
use discoblock.Kube.Exec.Emits.{
  Emits, emit_rules, Emits-if, Emits-pure, Emits-bind, Emits-then, Emits-answer, Emits-catch,
  Emits-return,
}
use discoblock.Kube.Api.{Api, ApiError, Call}
use discoblock.Utils.Decorate.{pvc_decorator, get_target_node_by_affinity}
use discoblock.Mutator.Common.{Request, Progress, Library}
use discoblock.Mutator.Patch.{on_secret, on_marshaled, respond, sidecar_or, patch}
use discoblock.Mutator.Claimed.{
  Writes, IsListed, IsTarget, IsClass, Sorts, error_mode-Never, error_mode-Emits,
  create_claim-Emits,
}
use discoblock.Mutator.{
  is_dry, daemon_types, owned_name, fresh_name, name_pod, class_missing, of_request, list_failed,
  find_class, claim_name, find_stub, add_mount, add_mounts, claim_mounts, mutate, consider,
  mutate_all, finish, on_configs, review, handle,
}
use discoblock.Kube.Exec.Returns.{
  Returns, Any, return_rules, Returns-pure, Returns-return, Returns-if, Returns-then,
  Returns-attempt-told, Returns-catch-told,
}

module _ (lib : Library) (api : Api) (strict : Bool) (request : Request) where
  abbrev Allowed : Call → Type 0
  Allowed c = Writes lib api request c

  daemon_types-Emits :
      (node_name : String) (pod : Pod) (types : List AvailabilityMode) (mode : AvailabilityMode)
      → Emits Allowed (daemon_types lib api strict node_name pod types mode)
  daemon_types-Emits node_name pod types read_write_daemon =
      search (emit_rules, error_mode-Emits lib api strict request)
  daemon_types-Emits node_name pod types read_write_same = search emit_rules
  daemon_types-Emits node_name pod types read_write_once = search emit_rules
  daemon_types-Emits node_name pod types (unknown_mode m) = search emit_rules

  owned_name-Emits :
      (owners : List OwnerReference) (random now : String)
      → Emits Allowed (owned_name lib api strict owners random now)
  owned_name-Emits [] random now = search emit_rules
  owned_name-Emits (o ∷ os) random now =
      search (emit_rules, error_mode-Emits lib api strict request)

  name_pod-Emits : (pod : Pod) → Emits Allowed (name_pod lib api strict pod)
  unfolding name_pod fresh_name
  name_pod-Emits pod = search (emit_rules, owned_name-Emits) depth 8

  find_class-Emits : (config : DiskConfig) → Emits Allowed (find_class lib api strict config)
  unfolding find_class
  find_class-Emits config = search (emit_rules, error_mode-Emits lib api strict request) depth 8

  claim_name-Emits :
      (config : DiskConfig) (node_name : String)
      → Emits Allowed (claim_name lib api strict config node_name)
  unfolding claim_name
  claim_name-Emits config node_name =
      search (emit_rules, error_mode-Emits lib api strict request) depth 8

  class_missing-Returns :
      (e : ApiError)
      → Returns (Unit {0}) Any (λ _. ⊥) (class_missing lib api strict {A = StorageClass} e)
  class_missing-Returns e = search (return_rules)

  find_class-told :
      (config : DiskConfig)
      → Returns
          (Unit {0})
          Any
          (IsClass lib api strict request config)
          (find_class lib api strict config)
  unfolding find_class
  find_class-told config =
      Returns-then _ _ _
        (Returns-attempt-told _ _ (class_missing lib api strict) class_missing-Returns
          λ h sc told. (h, told))
        λ sc is.
          Returns-if (api.has_driver sc.provisioner) _ _ (λ _. Returns-pure sc is)
            (λ _. error_mode-Never lib api strict request _ _ _)

  find_stub-Emits :
      (config : DiskConfig) (provisioner name : String)
      → Emits Allowed (find_stub lib api strict config provisioner name)
  unfolding find_stub
  find_stub-Emits config provisioner name =
      search (emit_rules, error_mode-Emits lib api strict request)

  add_mount-Emits :
      (p : Progress) (name mp : String) → Emits Allowed (add_mount lib api strict p name mp)
  unfolding add_mount
  add_mount-Emits p name mp = search (emit_rules, error_mode-Emits lib api strict request)

  add_mounts-Emits :
      (mounts : List (String × String)) (p : Progress)
      → Emits Allowed (add_mounts lib api strict mounts p)
  unfolding add_mounts
  add_mounts-Emits [] p = search emit_rules
  add_mounts-Emits ((name, mp) ∷ rest) p =
      Emits-bind _ _ (add_mount-Emits p name mp) λ p'. add_mounts-Emits rest p'

  on_secret-Emits : (r : Result ApiError (Unit {0})) → Emits Allowed (on_secret lib api r)
  on_secret-Emits (ok u) = search emit_rules
  on_secret-Emits (err e) = search emit_rules

  on_marshaled-Emits : (r : Result String String) → Emits Allowed (on_marshaled lib api request r)
  on_marshaled-Emits (ok text) = search emit_rules
  on_marshaled-Emits (err e) = search emit_rules

  sidecar-Emits :
      (reason : String) (r : Result String Container) → Emits Allowed (sidecar_or lib api reason r)
  sidecar-Emits reason (ok c) = search emit_rules
  sidecar-Emits reason (err e) = search emit_rules

  module _ (sorts : Sorts lib) where
    claim_mounts-Emits :
        (config : DiskConfig) (sc : StorageClass) (node_name : String) (stub : Pvc)
        → IsListed lib api request config
        → IsClass lib api strict request config sc
        → IsTarget lib api request node_name
        → Emits Allowed
            (claim_mounts lib api strict request config sc node_name (pvc_decorator config stub))
    unfolding claim_mounts
    claim_mounts-Emits config sc node_name stub listed is target =
        Emits-if (is_dry request.dry_run) _ _ (λ _. Emits-pure _)
          (λ wet.
            create_claim-Emits lib api strict request wet sorts config listed sc node_name stub _ is
              target)

    mutate-Emits :
        (node_name : String) (i : ℕ) (config : DiskConfig) (p : Progress)
        → IsTarget lib api request node_name
        → IsListed lib api request config
        → Emits Allowed (mutate lib api strict request node_name i config p)
    unfolding mutate
    mutate-Emits node_name i config p target listed =
        Emits-bind _ _ (daemon_types-Emits node_name p.pod p.types _) λ types.
          Emits-bind _ _ (name_pod-Emits p.pod) λ named.
            Emits-then (Unit {0}) Any (IsClass lib api strict request config) _ _
              (find_class-told config) (find_class-Emits config)
              λ sc is. Emits-bind _ _ (claim_name-Emits config node_name) λ name.
                Emits-bind _ _ (find_stub-Emits config sc.provisioner name) λ stub.
                  Emits-bind _ _ (claim_mounts-Emits config sc node_name stub listed is target)
                    λ mounts. add_mounts-Emits (lib.visit i mounts) _

    consider-Emits :
        (node_name : String) (i : ℕ) (config : DiskConfig) (p : Progress)
        → IsTarget lib api request node_name
        → IsListed lib api request config
        → Emits Allowed (consider lib api strict request node_name i config p)
    consider-Emits node_name i config p target listed =
        search (emit_rules, mutate-Emits, target, listed)

    mutate_all-Emits :
        (node_name : String) (i : ℕ) (configs : List DiskConfig) (p : Progress)
        → IsTarget lib api request node_name
        → All (IsListed lib api request) configs
        → Emits Allowed (mutate_all lib api strict request node_name i configs p)
    unfolding mutate_all
    mutate_all-Emits node_name i [] p target listed = search emit_rules
    mutate_all-Emits node_name i (config ∷ rest) p target listed =
        Emits-bind _ _ (consider-Emits node_name i config p target listed.0)
          λ p'. mutate_all-Emits node_name (suc i) rest p' target listed.1

    respond-Emits : (pod : Pod) → Emits Allowed (respond lib api request pod)
    unfolding respond
    respond-Emits pod = search (emit_rules, on_secret-Emits, on_marshaled-Emits) depth 8

    patch-Emits :
        (pod : Pod) (volumes : Map String) → Emits Allowed (patch lib api request pod volumes)
    unfolding patch
    patch-Emits pod volumes = search (emit_rules, sidecar-Emits, respond-Emits) depth 8

    finish-Emits :
        (p : Progress) (volumes : Map String)
        → Emits Allowed (finish lib api strict request p volumes)
    finish-Emits p [] = search emit_rules
    finish-Emits p (v ∷ vs) = patch-Emits p.pod (v ∷ vs)

    on_configs-Emits :
        (pod : Pod) (configs : List DiskConfig)
        → IsTarget lib api request (get_target_node_by_affinity pod.affinity)
        → All (IsListed lib api request) configs
        → Emits Allowed (on_configs lib api strict request pod configs)
    on_configs-Emits pod [] target listed = search emit_rules
    on_configs-Emits pod (config ∷ rest) target listed =
        Emits-bind _ _ (mutate_all-Emits _ zero (config ∷ rest) _ target listed)
          λ p. finish-Emits p p.volumes

    review-Emits :
        (pod : Pod)
        → lib.decode_pod request.raw ≡ ok pod
        → Emits Allowed (review lib api strict request (of_request lib api strict request pod))
    unfolding review
    review-Emits pod decoded = Emits-answer _ _ (list_failed lib api strict) _ tt λ h configs told.
        on_configs-Emits _ configs (pod, decoded, refl)
          (All-map (λ config k. (h, configs, told, k)) configs (All-Among configs))

    -- The mutator creates claims only with the finalizer, the label and the capacity of a DiskConfig
    -- that the server listed for the namespace. It updates only claims that the server answered, of
    -- which it changes nothing but that the finalizer of such a DiskConfig is added. It creates only
    -- classes that are copies of the class of such a DiskConfig for the topology of the node that the
    -- pod's affinity names, and the secret of the certificates. In a dry run it makes none of these
    -- writes but the secret. The condition is that sorting invents no claim.
    pub handle-Writes : Emits (Writes lib api request) (handle lib api strict request)
    unfolding handle
    handle-Writes =
        Emits-then (Unit {0}) Any (λ pod. lib.decode_pod request.raw ≡ ok pod) _ _
          (Returns-catch-told (lib.decode_pod request.raw) _ (λ e. Returns-return _ tt))
          (Emits-catch _ _ λ e. Emits-return _) review-Emits
