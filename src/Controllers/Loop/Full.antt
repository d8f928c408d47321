-- ===== src/Controllers/Loop/Full.antt =====
-- controllers/pvc_controller.go: a full disk leads to the update of its claim.
use discoblock.Base.{
  map, label, length, Bool, false, if◌then◌else◌, Among-middle, All-before, All-after, All-map,
  String, none, List, [], ◌∷◌, ◌++◌, Map, keep, ◌≡◌, ◌≢◌, ◌⊎◌, inl, inr, refl, sym, ap, ◌∙◌, All,
  Among,
}
use mathlib.Core.Path.{subst}
use discoblock.Base.Int.{ℤ, next_int}
use discoblock.Kube.Objects.{DiskConfig, Pvc, Pod}
use discoblock.Kube.Quantity.{Quantity, Quantities, IsExact}
use discoblock.Kube.Exec.{ok, Flow, next, done, panic, return, attempt}
use discoblock.Kube.Exec.Returns.{
  Returns, Ends, Never, Returns-then, Returns-told, Returns-caught, Returns-panics,
}
use discoblock.Kube.Exec.Reaches.{Reaches, Reaches-then, Reaches-first, Reaches-panics}
use discoblock.Kube.Api.{Api, Call, History, Made}
use discoblock.Controllers.Volumes.{End, finished}
use discoblock.Controllers.Waits.Enough.{Ticks}
use discoblock.Controllers.Resize.{with_request}
use discoblock.Controllers.Rounds.Families.{families}
use discoblock.Controllers.Rounds.{
  create, grow, container_id, since, Work, Watch, Round, is_cooling, is_active, last_of, watch,
  watch_all, monitor_volumes,
}
use discoblock.Controllers.Rounds.Filled.{Orders}
use discoblock.Controllers.Rounds.Starts.{NodeMissing}
use discoblock.Controllers.Rounds.Progress.{IsFull, is_too_large, extended, response}
use discoblock.Controllers.Rounds.Progress.Watched.{Meets, watch-Started}
use discoblock.Controllers.Loop.{Wake, tick, resume, fresh, monitor_round, monitor_loop}
use discoblock.Controllers.Loop.Started.{WorkPanic, run_all-Reaches, Made-Lasting}
use discoblock.Controllers.Loop.Others.{Same, Told, watch_all-started}
use discoblock.Controllers.Loop.Writes.{monitor_loop-Emits}

module _ {F : Type 0} (q : Quantities) (value : Quantity → ℤ) (exact : IsExact q value) (api : Api)
    (ticks : Ticks api) (round : Round F) (orders : Orders round) (before : List DiskConfig)
    (config : DiskConfig) (after : List DiskConfig) where
  abbrev pub configs : List DiskConfig
  configs = before ++ config ∷ after

  -- What a panic of the round shows: a pod whose node is not in the cache, for a DiskConfig that is
  -- listed; or what a panic of the work shows.
  abbrev pub RoundPanic : Type 0
  RoundPanic =
      ((other : DiskConfig) × Among other configs × NodeMissing q value exact api round other)
      ⊎ WorkPanic api

  told :
      (other : DiskConfig)
      → Among other configs
      → Told q value exact api round orders RoundPanic other
  told other k missing = inl (other, k, missing)

  module _ (listed : (h : History) → api.list_disk_configs h none ≡ ok configs)
      (named : All (λ other. other.name ≢ config.name) before) (w : Watch) (pvcs : List Pvc)
      (pods : List Pod) (pod : Pod) (info : Map F)
      (meets : Meets api round config w pvcs pods pod info) (name : String) (family : List Pvc)
      (parent : Pvc) (rest : List Pvc) (index : ℤ) (used : F)
      (met : Among
        (name, family)
        (round.visit (families (keep (is_active api config) pvcs) pod.volumes [])))
      (sorted : round.by_creation family ≡ parent ∷ rest)
      (full : IsFull q round config pod info
        (last_of parent rest)
        (length (parent ∷ rest))
        index
        used)
      (fits : is_too_large q round config pod info (last_of parent rest) ≡ false) where
    abbrev work : Work
    work = response q round config pod info parent (last_of parent rest) index

    abbrev Started : Watch → Type 0
    Started u = Among work u.started

    grows :
        (v : Watch)
        → Started v
        → Among
            (grow config pod
              (extended q round config pod info (last_of parent rest))
              (last_of parent rest)
              (label round.nodes pod.host_ip))
            v.started
    grows v k =
        subst
          (λ (b : Bool).
            Among
              (if b
                then create config pod parent (map container_id pod.container_ids)
                    (label round.nodes pod.host_ip) (next_int index)
                else grow config pod (extended q round config pod info (last_of parent rest))
                    (last_of parent rest) (label round.nodes pod.host_ip))
              v.started)
          fits k

    Meets-later : (v : Watch) → Same config.name w v → Meets api round config v pvcs pods pod info
    unfolding is_cooling
    Meets-later v same = record {
      running = meets.running;
      warm = λ h. ap (λ o. since o config.spec.policy.cool_down (api.now h)) same ∙ meets.warm h;
      claim_selector = meets.claim_selector;
      pod_selector = meets.pod_selector;
      claims = meets.claims;
      pods_listed = meets.pods_listed;
      scheduled = meets.scheduled;
      old = meets.old;
      alive = meets.alive;
      granted = meets.granted;
      informed = meets.informed;
    }

    runs :
        (v : Watch)
        → Same config.name w v
        → Returns RoundPanic Never Started (watch q api round config v)
    runs v same = Returns-panics (told config (Among-middle before config after)) _ (
        watch-Started q value exact api round orders config v pvcs pods pod info
          (Meets-later v same) name family parent rest index used met sorted full)

    monitor_volumes-Started :
        Returns RoundPanic Never Started (monitor_volumes q api round (fresh w))
    unfolding monitor_volumes attempt
    monitor_volumes-Started =
        Returns-then (λ c. c ≡ configs) _ _
          (Returns-then _ _ _
            (Returns-told (Call.list_disk_configs none) (λ h. api.list_disk_configs h none))
            λ r answer.
              Returns-caught r configs (λ e. return finished) (sym answer.1 ∙ listed answer.0))
          λ c same.
            subst (λ l. Returns RoundPanic Never Started (watch_all q api round l (fresh w)))
              (sym same)
              (watch_all-started q value exact api round orders RoundPanic config work w runs before
                after (fresh w) (All-map told before (All-before before (config ∷ after))) named
                (All-map told after (All-after before config after)) refl)

    resume-Started :
        (r : Flow End Watch)
        → Ends RoundPanic Never Started r
        → Ends RoundPanic Never Started (resume (fresh w) r)
    resume-Started (next v) e = e
    resume-Started (done r) e = elim e [ ]
    resume-Started panic e = e

    monitor_round-Started : Returns RoundPanic Never Started (monitor_round q api round w)
    unfolding monitor_round
    monitor_round-Started = record {
      at = λ h.
          resume-Started (monitor_volumes q api round (fresh w) h).0 (monitor_volumes-Started.at h);
    }

    -- Where the server lists a DiskConfig, and none of its name before it, that is neither paused
    -- nor within its cool down, its selectors are valid, and whenever a round asks the server lists
    -- its claims and a pod that is not being deleted, is older than the cool down, gets a slot, and
    -- has disk information and a node in the cache: if the use of the newest claim of a family of
    -- this pod has reached the trigger, and the new capacity does not exceed the maximum, a tick of
    -- the monitor leads to the update of this claim to the new capacity, or to a panic. A panic
    -- shows a listed DiskConfig with a listed pod whose node is not in the cache, or that the server
    -- answered a volume without CSI, an attachment without the metadata that is waited for, or no
    -- single attachment of a volume. The conditions are that the clock never goes back and timers
    -- take their time, and that sorting, and iterating over a map and over goroutines, lose and
    -- invent nothing.
    pub monitor_loop-Updates :
        (wakes : List (Wake F))
        → Reaches RoundPanic
            (Made (
              Call.update_pvc (
                with_request
                  (q.add config.spec.policy.extend_capacity (last_of parent rest).request)
                  (last_of parent rest))))
            (monitor_loop q api (tick round ∷ wakes) w)
    unfolding monitor_loop
    monitor_loop-Updates wakes = Reaches-then Started _ _ monitor_round-Started λ v k.
        Reaches-first _ _ (Made-Lasting _)
          (Reaches-panics (λ x. inr x) _
            (run_all-Reaches q api ticks round config pod _ (last_of parent rest) _ v.started
              (grows v k)))
          λ _. monitor_loop-Emits q api ticks wakes v
