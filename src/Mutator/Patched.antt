-- ===== src/Mutator/Patched.antt =====
-- mutators/pod_mutator.go: what a patch of Handle is.
use discoblock.Base.{zero, String, Bool, some, List, [], ◌≡◌, refl, All, ◌≢◌}
use discoblock.Kube.Objects.{DiskConfig, Pod}
use discoblock.Kube.Exec.{ok, Flow, next, done, panic, Exec}
use discoblock.Kube.Exec.Returns.{Returns, Ends}
use discoblock.Kube.Api.{Api, Action, History}
use discoblock.Utils.Decorate.{get_target_node_by_affinity}
use discoblock.Mutator.Common.{Request, Response, allowed, errored, patched, Progress, Library}
use discoblock.Mutator.Mounts.{Distinct, HasClaim, IsMounted}
use discoblock.Mutator.Steps.{IsPlain}
use discoblock.Mutator.{of_request, mutate_all}

-- Where the disks come from: the loop over the listed DiskConfigs collected them for the decoded pod.
pub record IsCollected (lib : Library) (api : Api) (strict : Bool) (request : Request)
    (prepared : Progress) : Type 0 where
  pub decoded : Pod
  pub configs : List DiskConfig
  pub loaded : lib.decode_pod request.raw ≡ ok decoded
  pub listed : (h : History) × (api.list_disk_configs h (some request.namespace) ≡ ok configs)
  pub collected :
      (before : History) × ((mutate_all lib api strict request
          (get_target_node_by_affinity decoded.affinity)
          zero
          configs
          (record { pod = of_request lib api strict request decoded; types = []; volumes = [] })
          before).0
        ≡ next prepared)

-- The text of a pod with the disks that were collected.
pub record IsPatch (lib : Library) (api : Api) (strict : Bool) (request : Request) (text : String)
    : Type 0 where
  pub prepared : Progress
  pub pod : Pod
  pub source : IsCollected lib api strict request prepared
  pub full : prepared.volumes ≢ []
  pub marshaled : lib.marshal_pod pod ≡ ok text
  pub kept : pod.meta ≡ prepared.pod.meta
  pub scheduled : pod.scheduler_name ≡ "discoblocks-scheduler"
  pub distinct : Distinct prepared.volumes
  pub claims : All (HasClaim pod.volumes) prepared.volumes
  pub mounts : All (IsMounted prepared.volumes) pod.containers

abbrev pub Answers : Library → Api → Bool → Request → Response → Type 0
Answers lib api strict request (allowed reason) = Unit
Answers lib api strict request (errored code error) = Unit
Answers lib api strict request (patched raw text) =
    (raw ≡ request.raw) × IsPatch lib api strict request text

module _ {C R A : Type 0} (X : Type 0) (P : R → Type 0) (Q : A → Type 0) (m : Exec C R A) where
  ran :
      (h : List C) (r : Flow R A)
      → (m h).0 ≡ r
      → Ends X P Q r
      → Ends X P (λ a. Q a × ((before : List C) × ((m before).0 ≡ next a))) r
  ran h (next a) e q = (q, (h, e))
  ran h (done r) e p = p
  ran h panic e x = x

  -- The value is one that the action ends with.
  pub Returns-ran :
      Returns X P Q m → Returns X P (λ a. Q a × ((before : List C) × ((m before).0 ≡ next a))) m
  Returns-ran k = record { at = λ h. ran h (m h).0 refl (k.at h) }

module _ (lib : Library) (api : Api) (strict : Bool) (request : Request) where
  plain :
      {A : Type 0} (X : Type 0) (Q : A → Type 0) (r : Flow Response A)
      → Ends X IsPlain Q r
      → Ends X (Answers lib api strict request) Q r
  plain X Q (next a) q = q
  plain X Q (done (allowed reason)) p = tt
  plain X Q (done (errored code error)) p = tt
  plain X Q (done (patched raw text)) p = elim p [ ]
  plain X Q panic x = x

  pub Returns-plain :
      {A : Type 0} (X : Type 0) (Q : A → Type 0) (m : Action Response A)
      → Returns X IsPlain Q m
      → Returns X (Answers lib api strict request) Q m
  Returns-plain X Q m k = record { at = λ h. plain X Q (m h).0 (k.at h) }
