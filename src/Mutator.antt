-- ===== src/Mutator.antt =====
-- mutators/pod_mutator.go: PodMutator.
pub mod Common
pub mod Claims
pub mod Patch
pub mod Claimed
pub mod Writes
pub mod Mounts
pub mod Steps
pub mod Prepared
pub mod Patched
pub mod Answers
use discoblock.Base.{
  ℕ, zero, suc, String, ◌⧺◌, Bool, true, false, not, ◌&&◌, Option, none, some, List, [], ◌∷◌, ◌++◌,
  map, any, Map, put, if◌then◌else◌, str_eq,
}
use discoblock.Base.Int.{ℤ, pos}
use discoblock.Kube.Objects.{
  Meta, DiskConfig, Pvc, Pod, StorageClass, Volume, claim, AvailabilityMode, read_write_same,
  read_write_daemon, OwnerReference,
}
use discoblock.Kube.Exec.{
  Result, ok, err, pure, return, crash, require, catch, call, attempt, observe, ◌>>=◌, ◌>>◌,
}
use discoblock.Kube.Api.{Api, Action, ApiError, Call, message, is_not_found}
use discoblock.Utils.Names.{render_resource_name, render_unique_label, get_name_prefix}
use discoblock.Utils.Labels.{is_contains_all}
use discoblock.Utils.Mount.{render_mount_point}
use discoblock.Utils.Decorate.{pvc_decorator, is_owned_by_daemon_set, get_target_node_by_affinity}
use discoblock.Mutator.Common.{
  Request, Response, allowed, errored, Progress, Library, error_mode, bad_request, not_found_code,
  internal_error,
}
use discoblock.Mutator.Claims.{create_claim}
use discoblock.Mutator.Patch.{add_volume, patch}

abbrev pub is_same : AvailabilityMode → Bool
is_same read_write_same = true
is_same _ = false

-- The first two tests of the loop, turned round.
unfoldable pub is_selected : Pod → DiskConfig → Bool
is_selected pod config = elim config.deleted [
  | some t ↦ false
  | none ↦ is_contains_all pod.labels config.spec.pod_selector
]

abbrev named : Pod → String → Pod
named pod name = record pod { meta = record (pod.meta) { name = name } }

abbrev pub labelled : Pod → DiskConfig → Pod
labelled pod config = record pod {
  meta = record (pod.meta) { labels = put pod.labels (render_unique_label config.uid) config.name };
}

abbrev pub claim_volume : String → Volume
claim_volume name = record { name = name; source = claim name }

abbrev pub with_claim : Progress → String → String → Progress
with_claim p name mount_point = record p {
  pod = add_volume (claim_volume name) p.pod;
  volumes = put p.volumes name mount_point;
}

abbrev pub is_dry : Option Bool → Bool
is_dry none = false
is_dry (some dry) = dry

module _ (lib : Library) (api : Api) (strict : Bool) where
  abbrev pub daemon_types :
      String
      → Pod
      → List AvailabilityMode
      → AvailabilityMode
      → Action Response (List AvailabilityMode)
  daemon_types node_name pod types read_write_daemon =
      if str_eq node_name ""
      then error_mode strict bad_request
          "Node name not found for ReadWriteDaemons at node affinities"
          "node name not found for readwritedaemons at node affinities"
      else if any is_same types
      then error_mode strict bad_request
          "ReadWriteDaemon and ReadWriteSame are not supported together"
          "readwritedaemon and readwritesame are not supported together"
      else if is_owned_by_daemon_set pod
      then pure (read_write_daemon ∷ types)
      else error_mode strict bad_request "ReadWriteDaemon supports only apps/v1.DaemonSets"
          "readwritedaemon supports only apps/v1.daemonsets"
  daemon_types node_name pod types _ = pure types

  abbrev pub owned_name : List OwnerReference → String → String → Action Response String
  owned_name [] random now = pure (random ⧺ "-" ⧺ now)
  owned_name (o ∷ os) random now =
      require
        (render_resource_name false
          (o.name ∷ random ∷ map (λ (r : OwnerReference). r.name) (o ∷ os)))
        (error_mode strict internal_error "Unable to render resource name: missing name elements"
          "unable to render resource name: missing name elements")

  unfoldable pub fresh_name : Pod → Action Response String
  unfolding error_mode ◌>>=◌
  fresh_name pod = do
    random ← observe api.random_name
    now ← observe api.now_text
    owned_name pod.owners random now

  -- A pod without a name gets one.
  unfoldable pub name_pod : Pod → Action Response Pod
  unfolding fresh_name ◌>>=◌
  name_pod pod =
      if str_eq pod.name "" then (fresh_name pod >>= λ name. pure (named pod name)) else pure pod

  abbrev pub class_missing : {A : Type 0} → ApiError → Action Response A
  class_missing e =
      if is_not_found e
      then return (errored not_found_code (message e))
      else return (errored internal_error ("unable to fetch StorageClass: " ⧺ message e))

  unfoldable pub find_class : DiskConfig → Action Response StorageClass
  unfolding error_mode attempt
  find_class config = do
    sc ←
        attempt (Call.get_storage_class config.spec.storage_class_name)
          (λ h. api.get_storage_class h config.spec.storage_class_name) class_missing
    if api.has_driver sc.provisioner
        then pure sc
        else error_mode strict internal_error ("Driver not found: " ⧺ sc.provisioner)
            ("driver not found: " ⧺ sc.provisioner)

  -- An availability mode that is none of the three is a panic of GetNamePrefix.
  unfoldable pub claim_name : DiskConfig → String → Action Response String
  unfolding error_mode ◌>>=◌
  claim_name config node_name = do
    now ← observe api.now_text
    prefix ← require (get_name_prefix config.spec.availability_mode now config.uid node_name) crash
    require (render_resource_name true (prefix ∷ config.name ∷ config.namespace ∷ [])) (
        error_mode strict internal_error "Failed to render PersistentVolumeClaim name"
          "failed to render PersistentVolumeClaim name: missing name elements")

  unfoldable pub find_stub : DiskConfig → String → String → Action Response Pvc
  unfolding error_mode attempt
  find_stub config provisioner name =
      attempt (Call.get_pvc_stub provisioner name config.namespace config.spec.storage_class_name)
        (λ h. api.get_pvc_stub h provisioner name config.namespace config.spec.storage_class_name)
        λ e.
          error_mode strict internal_error ("Failed to get GetPVCStub: " ⧺ e)
            ("failed to get GetPVCStub: " ⧺ e)

  -- one claim for the pod, at a mount point that is free
  unfoldable pub add_mount : Progress → String → String → Action Response Progress
  unfolding error_mode
  add_mount p name mount_point =
      if any (λ (v : String × String). str_eq v.1 mount_point) p.volumes
      then error_mode strict internal_error "Unable to init a PVC"
          ("mount point already added: " ⧺ name ⧺ ":/" ⧺ lib.first_at p.volumes mount_point)
      else pure (with_claim p name mount_point)

  unfoldable pub add_mounts : List (String × String) → Progress → Action Response Progress
  unfolding add_mount ◌>>=◌
  add_mounts [] p = pure p
  add_mounts ((name, mount_point) ∷ rest) p =
      add_mount p name mount_point >>= λ p'. add_mounts rest p'

  -- the mount points by the names of the claims
  unfoldable pub claim_mounts :
      Request → DiskConfig → StorageClass → String → Pvc → Action Response (Map String)
  unfolding create_claim
  claim_mounts request config sc node_name pvc =
      let mounts =
        (pvc.name, render_mount_point lib.other config.spec.mount_point_pattern pvc.name (pos 0))
        ∷ [] in
      if is_dry request.dry_run
      then pure mounts
      else create_claim lib api strict config sc node_name pvc mounts

  -- one round of the loop over the DiskConfigs that select the pod; `i` is its number
  unfoldable pub mutate : Request → String → ℕ → DiskConfig → Progress → Action Response Progress
  unfolding error_mode name_pod find_class claim_name find_stub claim_mounts add_mounts ◌>>=◌
  mutate request node_name i config p = do
    types ← daemon_types node_name p.pod p.types config.spec.availability_mode
    named_pod ← name_pod p.pod
    let pod = labelled named_pod config
    sc ← find_class config
    name ← claim_name config node_name
    stub ← find_stub config sc.provisioner name
    mounts ← claim_mounts request config sc node_name (pvc_decorator config stub)
    add_mounts (lib.visit i mounts) (record { pod = pod; types = types; volumes = p.volumes })

  abbrev pub consider : Request → String → ℕ → DiskConfig → Progress → Action Response Progress
  consider request node_name i config p =
      if is_selected p.pod config then mutate request node_name i config p else pure p

  unfoldable pub mutate_all :
      Request → String → ℕ → List DiskConfig → Progress → Action Response Progress
  unfolding mutate is_selected
  mutate_all request node_name i [] p = pure p
  mutate_all request node_name i (config ∷ rest) p =
      consider request node_name i config p >>= λ p'. mutate_all request node_name (suc i) rest p'

  abbrev pub finish : Request → Progress → Map String → Action Response Response
  finish request p [] = return (allowed "No sidecar injection")
  finish request p (v ∷ vs) = patch lib api request p.pod (v ∷ vs)

  -- `pod.Name = req.Name` and `pod.Namespace = req.Namespace`
  abbrev pub of_request : Request → Pod → Pod
  of_request request pod = record pod {
    meta = record (pod.meta) { name = request.name; namespace = request.namespace };
  }

  abbrev pub on_configs : Request → Pod → List DiskConfig → Action Response Response
  on_configs request pod [] =
      return (allowed ("DiskConfig not found in namespace: " ⧺ pod.namespace))
  on_configs request pod (config ∷ rest) =
      mutate_all request (get_target_node_by_affinity pod.affinity) zero (config ∷ rest)
        (record { pod = pod; types = []; volumes = [] })
      >>= λ p. finish request p p.volumes

  abbrev pub list_failed : ApiError → Response
  list_failed e = errored internal_error ("unable to fetch DiskConfigs: " ⧺ message e)

  -- from the list of the DiskConfigs on
  unfoldable pub review : Request → Pod → Action Response Response
  unfolding mutate_all patch attempt ◌>>=◌
  review request pod =
      attempt (Call.list_disk_configs (some pod.namespace))
        (λ h. api.list_disk_configs h (some pod.namespace)) (λ e. return (list_failed e))
      >>= λ configs. on_configs request pod configs

  unfoldable pub handle : Request → Action Response Response
  unfolding review ◌>>=◌
  handle request = do
    pod ←
        catch (lib.decode_pod request.raw)
          λ e. return (errored bad_request ("unable to decode request: " ⧺ e))
    review request (of_request request pod)
