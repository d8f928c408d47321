-- ===== src/Controllers/Rounds.antt =====
-- controllers/pvc_controller.go: the loops of MonitorVolumes. The goroutines of the pods run one after
-- another in an order that is given; the work that they start is collected, the latest first.
pub mod Families
pub mod Keeps
pub mod Filled
pub mod Starts
pub mod Progress
pub mod Cools
pub mod Calls
use Prim.Native.String.{len, slice}
use text.Mathlib.Text.{starts_with}
use discoblock.Base.{
  ℕ, ◌+◌, ◌-◌, String, ◌⧺◌, Bool, true, false, not, ◌&&◌, ◌||◌, Option, none, some, List, [], ◌∷◌,
  ◌++◌, map, keep, length, Map, get, put, label, if◌then◌else◌, ltb, str_eq, is_some,
}
use discoblock.Base.Int.{ℤ, pos_part, neg_part}
use discoblock.Kube.Objects.{DiskConfig, Pvc, Pod, Volume, VolumeSource, claim}
use discoblock.Kube.Quantity.{Quantity, Quantities}
use discoblock.Kube.Exec.{Result, ok, err, pure, return, crash, call, attempt, observe, ◌>>=◌, ◌>>◌}
use discoblock.Kube.Api.{Api, Action, ApiError, Call, Event, Related, History}
use discoblock.Utils.Names.{render_finalizer, render_unique_label}
use discoblock.Text.Decimal.{atoi}
use discoblock.Utils.Mount.{render_mount_point}
use discoblock.Controllers.Volumes.{End, finished, monitor_event, notify}
use discoblock.Controllers.Resize.{resize_pvc}
use discoblock.Controllers.Create.{create_pvc}
use discoblock.Controllers.Rounds.Families.{families}
use discoblock.Controllers.Monitor.{Decision, act_index, decide}

-- `go r.createPVC(...)` and `go r.resizePVC(...)`
pub data Work : Type 0 where
  create : DiskConfig → Pod → Pvc → List String → String → ℤ → Work
  grow : DiskConfig → Pod → Quantity → Pvc → String → Work

-- r.InProgress with times, and the work of this round
pub record Watch : Type 0 where
  pub in_progress : Map ℕ
  pub started : List Work

-- What a round meets outside of it: the disk information, the inverted node cache, the orders of
-- sort.Slice, of the iteration over a map and of the goroutines, and the slots of the semaphore.
pub record Round (F : Type 0) : Type 0 where
  pub fetch : History → String → String → Result String (Map F)
  pub less : F → ℕ → Bool
  pub nodes : Map String
  pub other : String → ℤ → String
  pub atoi_error : String → String
  pub by_creation : List Pvc → List Pvc
  pub visit : Map (List Pvc) → List (String × List Pvc)
  pub in_order : List Pod → List Pod
  pub granted : Pod → Bool

-- `t.Add(coolDown).After(now)`
abbrev pub is_after : ℕ → ℤ → ℕ → Bool
is_after t cool_down now = ltb (now + neg_part cool_down) (t + pos_part cool_down)

abbrev pub since : Option ℕ → ℤ → ℕ → Bool
since none cool_down now = false
since (some last) cool_down now = is_after last cool_down now

-- The DiskConfig is looked up by its name alone.
unfoldable pub is_cooling : DiskConfig → Map ℕ → ℕ → Bool
is_cooling config in_progress now =
    since (get in_progress config.name) config.spec.policy.cool_down now

-- NoExpansionInProgress of k8s.io/api is the empty text.
abbrev pub is_expanding : Option String → Bool
is_expanding none = false
is_expanding (some status) = not (str_eq status "")

module _ (api : Api) where
  unfoldable pub is_active : DiskConfig → Pvc → Bool
  is_active config pvc = not (
      is_some pvc.deleted
      || not (api.contains_finalizer pvc.finalizers (render_finalizer config.name []))
      || is_expanding pvc.resize_status)

abbrev pub last_of : Pvc → List Pvc → Pvc
last_of p [] = p
last_of p (x ∷ xs) = last_of x xs

-- strings.TrimPrefix
unfoldable pub trim_prefix : String → String → String
trim_prefix s prefix = if starts_with s prefix then slice s (len prefix) (len s) else s

abbrev pub container_id : String → String
container_id id = trim_prefix (trim_prefix id "containerd://") "docker://"

module _ {F : Type 0} (q : Quantities) (api : Api) (round : Round F) (config : DiskConfig) where
  -- an event without a related object
  abbrev pub tell : Pod → String → String → Action End (Unit {0})
  tell pod reason note =
      notify api
        (record (monitor_event true pod reason note pod.meta) { related = Related.no_object })

  abbrev pub mount_of : Option ℤ → String
  mount_of none = ""
  mount_of (some index) =
      render_mount_point round.other config.spec.mount_point_pattern config.name index

  abbrev pub start : Watch → Work → Action End Watch
  start w work = observe api.now >>= λ now.
      pure (record { in_progress = put w.in_progress config.name now; started = work ∷ w.started })

  -- what follows from the decision about a family
  -- The error of Atoi outlives its family: the next newest claim with the label sets it again.
  abbrev pub atoi_err : String → Option ℤ → Option String
  atoi_err text none = some (round.atoi_error text)
  atoi_err text (some index) = none

  abbrev pub after_label : Option String → Option String → Option String
  after_label stale none = stale
  after_label stale (some text) = atoi_err text (atoi text)

  -- `err` of the goroutine after a family
  abbrev pub after_family : Option String → List Pvc → Option String
  after_family stale [] = stale
  after_family stale (parent ∷ rest) =
      after_label stale (get (last_of parent rest).labels "discoblocks-index")

  -- `err.Error()` is a panic where the error is nil.
  abbrev pub on_missing : Option String → Pod → Pvc → Watch → Action End Watch
  on_missing none pod last w = crash
  on_missing (some e) pod last w =
      tell pod ("Node not found for " ⧺ last.name ⧺ ": " ⧺ pod.host_ip) e >> pure w

  abbrev pub on_decision : Option String → Pod → Pvc → Watch → Decision → Action End Watch
  on_decision stale pod last w (Decision.unknown_index text) =
      tell pod ("Failed to convert last index of " ⧺ last.name ⧺ ": " ⧺ text)
        (round.atoi_error text)
      >> pure w
  on_decision stale pod last w (Decision.no_metrics note) =
      tell pod ("Failed to find metrics of " ⧺ last.name ⧺ ": " ⧺ mount_of (act_index last)) note
      >> pure w
  on_decision stale pod last w Decision.size_ok = pure w
  on_decision stale pod last w Decision.node_missing = on_missing stale pod last w
  on_decision stale pod last w Decision.at_maximum = pure w
  on_decision stale pod last w (Decision.new_disk index parent) = start w (
      create config pod parent (map container_id pod.container_ids) (label round.nodes pod.host_ip)
        index)
  on_decision stale pod last w (Decision.resize capacity pvc) =
      start w (grow config pod capacity pvc (label round.nodes pod.host_ip))

  -- A family has a claim; of none, the last one is a panic.
  abbrev pub on_sorted : Option String → Pod → Map F → Watch → List Pvc → Action End Watch
  on_sorted stale pod info w [] = crash
  on_sorted stale pod info w (parent ∷ rest) =
      on_decision (after_family stale (parent ∷ rest)) pod (last_of parent rest) w (
        decide q round.less round.other config info round.nodes pod.host_ip parent
          (last_of parent rest) (length (parent ∷ rest)))

  -- `stale` is what `err` holds before the families.
  unfoldable pub on_families :
      Option String → Pod → Map F → List (String × List Pvc) → Watch → Action End Watch
  unfolding notify trim_prefix put ◌>>=◌
  on_families stale pod info [] w = pure w
  on_families stale pod info ((name, family) ∷ rest) w =
      on_sorted stale pod info w (round.by_creation family) >>= λ w'.
      on_families (after_family stale (round.by_creation family)) pod info rest w'

  abbrev pub on_info : List Pvc → Pod → Watch → Result String (Map F) → Action End Watch
  on_info active pod w (err e) = tell pod "Failed to fetch disk info" e >> pure w
  on_info active pod w (ok info) =
      on_families none pod info (round.visit (families active pod.volumes [])) w

  abbrev pub ask_info : List Pvc → Pod → Watch → Action End Watch
  ask_info active pod w =
      call (Call.fetch_disk_info pod.name pod.namespace) (λ h. round.fetch h pod.name pod.namespace)
      >>= λ answer. on_info active pod w answer

  -- the goroutine of one pod
  unfoldable pub watch_pod : List Pvc → Pod → Watch → Action End Watch
  unfolding families on_families notify ◌>>=◌
  watch_pod active pod w = observe api.now >>= λ now.
      if is_some pod.deleted
        || is_after pod.created config.spec.policy.cool_down now
        || not (round.granted pod)
      then pure w
      else ask_info active pod w

  unfoldable pub watch_pods : List Pvc → List Pod → Watch → Action End Watch
  unfolding watch_pod
  watch_pods active [] w = pure w
  watch_pods active (pod ∷ rest) w = watch_pod active pod w >>= λ w'. watch_pods active rest w'

  abbrev pub on_pods : List Pvc → Watch → Result ApiError (List Pod) → Action End Watch
  on_pods active w (err e) = pure w
  on_pods active w (ok pods) = watch_pods active (round.in_order pods) w

  abbrev pub ask_pods : List Pvc → Watch → Action End Watch
  ask_pods active w =
      call (Call.list_pods config.namespace (render_unique_label config.uid) config.name)
        (λ h. api.list_pods h config.namespace (render_unique_label config.uid) config.name)
      >>= λ answer. on_pods active w answer

  abbrev pub on_active : List Pvc → Watch → Action End Watch
  on_active [] w = pure w
  on_active (pvc ∷ rest) w =
      if api.is_requirement (render_unique_label config.uid) config.name
      then ask_pods (pvc ∷ rest) w
      else pure w

  abbrev pub on_claims : Watch → Result ApiError (List Pvc) → Action End Watch
  on_claims w (err e) = pure w
  on_claims w (ok pvcs) = on_active (keep (is_active api config) pvcs) w

  abbrev pub ask_claims : Watch → Action End Watch
  ask_claims w =
      call (Call.list_pvcs config.namespace "discoblocks" config.name)
        (λ h. api.list_pvcs h config.namespace "discoblocks" config.name)
      >>= λ answer. on_claims w answer

  -- from the selector of the claims on
  unfoldable pub watch_claims : Watch → Action End Watch
  unfolding is_active watch_pods ◌>>=◌
  watch_claims w = if api.is_requirement "discoblocks" config.name then ask_claims w else pure w

  -- one round of the loop over the DiskConfigs
  unfoldable pub watch : Watch → Action End Watch
  unfolding is_cooling watch_claims ◌>>=◌
  watch w = observe api.now >>= λ now.
      if config.spec.policy.pause || is_cooling config w.in_progress now
      then pure w
      else watch_claims w

module _ {F : Type 0} (q : Quantities) (api : Api) (round : Round F) where
  unfoldable pub watch_all : List DiskConfig → Watch → Action End Watch
  unfolding watch
  watch_all [] w = pure w
  watch_all (config ∷ rest) w = watch q api round config w >>= λ w'. watch_all rest w'

  unfoldable pub monitor_volumes : Watch → Action End Watch
  unfolding watch_all attempt
  monitor_volumes w =
      attempt (Call.list_disk_configs none) (λ h. api.list_disk_configs h none)
        (λ e. return finished)
      >>= λ configs. watch_all configs w

  unfoldable pub run_work : Work → Action End (Unit {0})
  unfolding create_pvc resize_pvc
  run_work (create config pod parent container_ids node_name index) =
      create_pvc round.other api config pod parent container_ids node_name index
  run_work (grow config pod capacity pvc node_name) =
      resize_pvc api config pod capacity pvc node_name
