-- ===== src/Controllers/Rounds/Progress.antt =====
-- controllers/pvc_controller.go: the monitor does not overlook a full disk.
pub mod Watched
use discoblock.Base.{
  ◌<◌, map, Bool-cases, ℕ, String, Bool, true, false, not, ◌||◌, Option, none, some, List, [], ◌∷◌,
  Map, get, label, keep, length, ◌≡◌, ◌≢◌, ◌⊎◌, inl, inr, refl, sym, ap, ◌∙◌, arith, All, All-map,
  All-Among, Among, Among-All, is_some, str_eq, eq_iff, if◌then◌else◌,
}
use mathlib.Core.Path.{subst}
use discoblock.Base.Int.{ℤ, next_int}
use discoblock.Kube.Objects.{DiskConfig, Pvc, Pod, Volume}
use discoblock.Kube.Quantity.{Quantity, Quantities, IsExact, exceeds}
use discoblock.Kube.Exec.{Result, ok, err, pure}
use discoblock.Kube.Exec.Returns.{
  Never, Returns, Returns-pure, Returns-then, Returns-bind, Returns-told, Returns-observe,
  Returns-if, Returns-seen, Returns-implies,
}
use discoblock.Kube.Api.{Api, ApiError, Call, History}
use discoblock.Utils.Names.{render_unique_label}
use discoblock.Utils.Mount.{render_mount_point}
use discoblock.Controllers.Monitor.{
  Decision, decide, extend, judge_use, new_capacity, enough_disks, act_index,
}
use discoblock.Controllers.Rounds.Families.{families}
use discoblock.Controllers.Rounds.{
  Work, create, grow, Watch, Round, is_after, is_cooling, is_active, last_of, container_id, start,
  after_family, on_decision, on_sorted, on_families, on_info, ask_info, watch_pod, watch_pods,
  on_pods, ask_pods, on_active, on_claims, ask_claims, watch_claims, watch,
}
use discoblock.Controllers.Rounds.Keeps.{
  Judgement, Logic, Panics, IsStart, IsServed, IsVisited, on_sorted-Keeps, on_families-Keeps,
  watch_pod-Keeps, watch_pods-Keeps,
}
use discoblock.Controllers.Rounds.Filled.{Orders}
use discoblock.Controllers.Rounds.Starts.{Comes, comes, NodeMissing, node_panics}

-- A claim whose use has reached the trigger, and that may grow, or have a new disk beside it.
pub record IsFull {F : Type 0} (q : Quantities) (round : Round F) (config : DiskConfig) (pod : Pod)
    (info : Map F) (last : Pvc) (size : ℕ) (index : ℤ) (used : F) : Type 0 where
  pub indexed : act_index last ≡ some index
  pub measured :
      get info (render_mount_point round.other config.spec.mount_point_pattern config.name index)
      ≡ some used
  pub reached : round.less used config.spec.policy.upscale_trigger_percentage ≡ false
  pub located : label round.nodes pod.host_ip ≢ ""
  pub room :
      exceeds q
          (q.add config.spec.policy.extend_capacity last.request)
          config.spec.policy.maximum_capacity_of_disk
        ≡ true
      → (config.spec.policy.maximum_number_of_disks ≡ 0)
        ⊎ (size < config.spec.policy.maximum_number_of_disks)

module _ {F : Type 0} (q : Quantities) (round : Round F) (config : DiskConfig) (pod : Pod)
    (info : Map F) where
  -- the capacity of the claim, extended
  abbrev pub extended : Pvc → Quantity
  extended last = q.add config.spec.policy.extend_capacity last.request

  abbrev pub is_too_large : Pvc → Bool
  is_too_large last = exceeds q (extended last) config.spec.policy.maximum_capacity_of_disk

  decide-IsFull :
      (parent last : Pvc) (size : ℕ) (index : ℤ) (used : F)
      → IsFull q round config pod info last size index used
      → decide q round.less round.other config info round.nodes pod.host_ip parent last size ≡ (
          if is_too_large last
          then Decision.new_disk (next_int index) parent
          else Decision.resize (extended last) last)
  unfolding decide judge_use extend new_capacity enough_disks
  decide-IsFull parent last size index used full = elim (Bool-cases (is_too_large last)) [
    | inl e ↦
        rw (full.indexed, decide)
          (ground (
            arith,
            e,
            full.measured,
            full.reached,
            full.located,
            full.room e,
            eq_iff (label round.nodes pod.host_ip) "",
          ))
    | inr e ↦
        rw (full.indexed, decide)
          (ground (
            arith,
            e,
            full.measured,
            full.reached,
            full.located,
            eq_iff (label round.nodes pod.host_ip) "",
          ))
  ]

  -- The work for a full claim: it grows, or the family gets a claim with the next index.
  abbrev pub response : Pvc → Pvc → ℤ → Work
  response parent last index =
      if is_too_large last
      then create config pod parent (map container_id pod.container_ids)
          (label round.nodes pod.host_ip) (next_int index)
      else grow config pod (extended last) last (label round.nodes pod.host_ip)

module _ {F : Type 0} (q : Quantities) (value : Quantity → ℤ) (exact : IsExact q value) (api : Api)
    (round : Round F) (config : DiskConfig) (X : Type 0)
    (panics : Panics q value exact api round config X) where
  module _ (pod : Pod) (info : Map F) (name : String) (family : List Pvc) (parent : Pvc)
      (rest : List Pvc) (index : ℤ) (used : F) (sorted : round.by_creation family ≡ parent ∷ rest)
      (full : IsFull q round config pod info
        (last_of parent rest)
        (length (parent ∷ rest))
        index
        used) where
    abbrev Started : Watch → Type 0
    Started v =
        Among (response q round config pod info parent (last_of parent rest) index) v.started

    kept :
        (v : Watch) (work : Work)
        → Started v
        → IsStart q value exact api round config work
        → Comes q value exact api round config X Watch Started (start q api round config v work)
    kept v work k is = Returns-bind _ _ (Returns-observe _) λ now. Returns-pure _ (inr k)

    anything :
        (v : Watch) (work : Work)
        → Unit {0}
        → IsStart q value exact api round config work
        → Comes q value exact api round config X Watch
            (λ _. Unit {0})
            (start q api round config v work)
    anything v work k is = Returns-bind _ _ (Returns-observe _) λ now. Returns-pure _ tt

    -- each of the two decisions
    chosen :
        (stale : Option String) (v : Watch) (b : Bool)
        → Returns X Never
            (λ (u : Watch).
              Among
                (if b
                  then create config pod parent
                      (map container_id pod.container_ids)
                      (label round.nodes pod.host_ip)
                      (next_int index)
                  else grow config pod
                      (extended q round config pod info (last_of parent rest))
                      (last_of parent rest)
                      (label round.nodes pod.host_ip))
                u.started)
            (on_decision q api round config stale pod (last_of parent rest) v (
              if b
              then Decision.new_disk (next_int index) parent
              else Decision.resize
                  (extended q round config pod info (last_of parent rest))
                  (last_of parent rest)))
    chosen stale v true =
        Returns-bind _ _ (Returns-observe api.now) λ now. Returns-pure _ (inl refl)
    chosen stale v false =
        Returns-bind _ _ (Returns-observe api.now) λ now. Returns-pure _ (inl refl)

    decided :
        (stale : Option String) (v : Watch) (d : Decision)
        → d ≡ (
            if is_too_large q round config pod info (last_of parent rest)
            then Decision.new_disk (next_int index) parent
            else Decision.resize
                (extended q round config pod info (last_of parent rest))
                (last_of parent rest))
        → Returns X Never Started
            (on_decision q api round config stale pod (last_of parent rest) v d)
    decided stale v d e =
        subst
          (λ x.
            Returns X Never Started
              (on_decision q api round config stale pod (last_of parent rest) v x))
          (sym e) (chosen stale v (is_too_large q round config pod info (last_of parent rest)))

    on_sorted-Started :
        (stale : Option String) (v : Watch) (claims : List Pvc)
        → claims ≡ parent ∷ rest
        → Returns X Never Started (on_sorted q api round config stale pod info v claims)
    on_sorted-Started stale v claims e =
        subst (λ c. Returns X Never Started (on_sorted q api round config stale pod info v c))
          (sym e)
          (decided _ v _ (
            decide-IsFull q round config pod info parent (last_of parent rest)
              (length (parent ∷ rest)) index used full))

    on_families-Started :
        (stale : Option String) (visited : List (String × List Pvc)) (v : Watch)
        → IsServed q value exact api round config pod
        → All (IsVisited q value exact api round config) visited
        → Among (name, family) visited
        → Returns X Never Started (on_families q api round config stale pod info visited v)
    unfolding on_families
    on_families-Started stale [] v served all k = elim k [ ]
    on_families-Started stale ((n, f) ∷ more) v served all (inl same) =
        Returns-then Started _ _
          (on_sorted-Started stale v (round.by_creation f)
            (ap (λ (p : String × List Pvc). round.by_creation p.1) same ∙ sorted))
          λ u k.
            on_families-Keeps q value exact api round config X panics _
              (comes q value exact api round config X) Started kept _ pod info more u served all.1 k
    on_families-Started stale ((n, f) ∷ more) v served all (inr later) =
        Returns-then (λ _. Unit {0}) _ _
          (on_sorted-Keeps q value exact api round config X panics _
            (comes q value exact api round config X) (λ _. Unit {0}) anything stale pod info v
            (round.by_creation f) served (panics.none_sorted n f all.0) tt)
          λ u _.
            on_families-Started (after_family q api round config stale (round.by_creation f)) more u
              served all.1 later

    module _ (active : List Pvc)
        (met : Among (name, family) (round.visit (families active pod.volumes [])))
        (old : (h : History)
          → is_after pod.created config.spec.policy.cool_down (api.now h) ≡ false)
        (alive : pod.deleted ≡ none) (granted : round.granted pod ≡ true)
        (informed : (h : History) → round.fetch h pod.name pod.namespace ≡ ok info) where
      on_info-Started :
          (v : Watch) (r : Result String (Map F))
          → IsServed q value exact api round config pod
          → r ≡ ok info
          → Returns X Never Started (on_info q api round config active pod v r)
      on_info-Started v r served e =
          subst (λ x. Returns X Never Started (on_info q api round config active pod v x)) (sym e)
            (on_families-Started none _ v served
              (All-map (λ _ k. (active, pod.volumes, k)) _
                (All-Among (round.visit (families active pod.volumes []))))
              met)

      watch_pod-Started :
          (v : Watch)
          → IsServed q value exact api round config pod
          → Returns X Never Started (watch_pod q api round config active pod v)
      unfolding watch_pod
      watch_pod-Started v served = Returns-then _ _ _ (Returns-seen api.now) λ now seen.
          Returns-if
            (is_some pod.deleted
              || is_after pod.created config.spec.policy.cool_down now
              || not (round.granted pod))
            (pure v) (ask_info q api round config active pod v)
            (λ skipped. absurd (ground (arith, skipped, alive, granted, old seen.0, seen.1)))
            (λ _.
              Returns-then _ _ _ (Returns-told _ _)
                λ r told. on_info-Started v r served (sym told.1 ∙ informed told.0))

      pub watch_pods-Started :
          (pods : List Pod) (v : Watch)
          → All (IsServed q value exact api round config) pods
          → Among pod pods
          → Returns X Never Started (watch_pods q api round config active pods v)
      unfolding watch_pods
      watch_pods-Started [] v served k = elim k [ ]
      watch_pods-Started (p ∷ more) v served (inl same) =
          Returns-then Started _ _
            (subst (λ x. Returns X Never Started (watch_pod q api round config active x v))
              (sym same)
              (watch_pod-Started v
                (subst (λ x. IsServed q value exact api round config x) same served.0)))
            λ u k.
              watch_pods-Keeps q value exact api round config X panics _
                (comes q value exact api round config X) Started kept active more u served.1 k
      watch_pods-Started (p ∷ more) v served (inr later) =
          Returns-then (λ _. Unit {0}) _ _
            (watch_pod-Keeps q value exact api round config X panics _
              (comes q value exact api round config X) (λ _. Unit {0}) anything active p v served.0
              tt)
            λ u _. watch_pods-Started more u served.1 later
