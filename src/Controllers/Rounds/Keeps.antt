-- ===== src/Controllers/Rounds/Keeps.antt =====
-- controllers/pvc_controller.go: the loops of MonitorVolumes keep what each start of work keeps. The
-- judgement `L`, about what an action comes to, is a parameter with the rules that the loops need.
use discoblock.Base.{
  Option, none, some, ℕ, String, Bool, true, false, ◌||◌, not, List, [], ◌∷◌, length, Map, ◌≡◌,
  refl, keep, All, All-map, All-Among, Among, label, eq_iff, arith, is_some, if◌then◌else◌,
}
use discoblock.Base.Int.{ℤ, ◌≤ℤ◌}
use discoblock.Kube.Objects.{DiskConfig, Pvc, Pod, Volume}
use discoblock.Kube.Quantity.{Quantity, Quantities, IsExact}
use discoblock.Kube.Exec.{Result, ok, err, pure, crash, call, observe, ◌>>=◌, ◌>>◌}
use discoblock.Kube.Exec.Returns.{Any}
use discoblock.Utils.Names.{render_unique_label}
use discoblock.Kube.Api.{Api, ApiError, Action, Call, Event, History}
use discoblock.Controllers.Volumes.{End, notify}
use discoblock.Controllers.Monitor.{Decision, decide, judge_use, extend}
use discoblock.Controllers.Monitor.Within.{Bounded, decide-Bounded}
use discoblock.Controllers.Rounds.Families.{families}
use discoblock.Controllers.Rounds.{
  Work, create, grow, Watch, Round, is_after, is_active, last_of, start, after_family, on_missing,
  on_decision, on_sorted, on_families, on_info, watch_pod, watch_pods, on_pods, on_active,
  on_claims, ask_info, ask_pods, ask_claims, watch_claims,
}

abbrev pub Judgement : Type 1
Judgement = (A : Type 0) → (A → Type 0) → Action End A → Type 0

-- A panic needs `X`.
pub record Logic (api : Api) (X : Type 0) (L : Judgement) : Type 1 where
  pub pure_rule : (A : Type 0) (Q : A → Type 0) (a : A) → Q a → L A Q (pure a)
  pub crash_rule : (A : Type 0) (Q : A → Type 0) → X → L A Q crash
  pub then_rule :
      (A B : Type 0) (S : A → Type 0) (Q : B → Type 0) (m : Action End A) (f : A → Action End B)
      → L A S m
      → ((a : A) → S a → L B Q (f a))
      → L B Q (m >>= f)
  pub call_rule :
      (A : Type 0) (c : Call) (f : History → A) → L A (λ a. (h : History) × (f h ≡ a)) (call c f)
  pub observe_rule : (A : Type 0) (f : History → A) → L A Any (observe f)
  pub notify_rule : (event : Event) → L (Unit {0}) Any (notify api event)

module _ {F : Type 0} (q : Quantities) (value : Quantity → ℤ) (exact : IsExact q value) (api : Api)
    (round : Round F) (config : DiskConfig) where
  -- Work for the DiskConfig; a claim grows only up to the maximum capacity.
  abbrev pub IsStart : Work → Type 0
  IsStart (create c pod parent container_ids node_name index) = c ≡ config
  IsStart (grow c pod capacity pvc node_name) =
      (c ≡ config) × (value capacity ≤ℤ value config.spec.policy.maximum_capacity_of_disk)

  -- The server listed the pod, among those of the DiskConfig, and its goroutine was run.
  abbrev pub IsServed : Pod → Type 0
  IsServed pod =
      (h : History) × (pods : List Pod) × (api.list_pods h config.namespace
          (render_unique_label config.uid) config.name
        ≡ ok pods)
      × Among pod (round.in_order pods)

  -- The family was met among those of a pod.
  abbrev pub IsVisited : String × List Pvc → Type 0
  IsVisited family =
      (active : List Pvc) × (volumes : List Volume) × Among family
        (round.visit (families active volumes []))

  -- What a panic shows: the node of a pod is not in the cache, or a family is sorted to nothing.
  pub record Panics (X : Type 0) : Type 0 where
    pub node_missing : (pod : Pod) → IsServed pod → label round.nodes pod.host_ip ≡ "" → X
    pub none_sorted :
        (name : String) (family : List Pvc)
        → IsVisited (name, family)
        → round.by_creation family ≡ []
        → X

  pub any_panic : Panics (Unit {0})
  any_panic = record { node_missing = λ _ _ _. tt; none_sorted = λ _ _ _ _. tt }

  located :
      (pod : Pod) (info : Map F) (parent last : Pvc) (size : ℕ)
      → decide q round.less round.other config info round.nodes pod.host_ip parent last size
        ≡ Decision.node_missing
      → label round.nodes pod.host_ip ≡ ""
  unfolding decide judge_use extend
  located pod info parent last size e = ground (arith, e, eq_iff (label round.nodes pod.host_ip) "")

  module _ (X : Type 0) (panics : Panics X) (L : Judgement) (logic : Logic api X L)
      (J : Watch → Type 0)
      (starts : (w : Watch) (work : Work)
        → J w
        → IsStart work
        → L Watch J (start q api round config w work)) where
    open logic use {pure_rule, crash_rule, then_rule, call_rule, observe_rule, notify_rule}

    abbrev Keeps : Action End Watch → Type 0
    Keeps m = L Watch J m

    if-Keeps : (b : Bool) (m n : Action End Watch) → Keeps m → Keeps n → Keeps (if b then m else n)
    if-Keeps true m n km kn = km
    if-Keeps false m n km kn = kn

    told-Keeps : (event : Event) (w : Watch) → J w → Keeps (notify api event >> pure w)
    told-Keeps event w j = then_rule _ _ _ _ _ _ (notify_rule event) (λ _ _. pure_rule _ _ w j)

    on_missing-Keeps :
        (stale : Option String) (pod : Pod) (last : Pvc) (w : Watch)
        → J w
        → X
        → Keeps (on_missing q api round config stale pod last w)
    on_missing-Keeps none pod last w j x = crash_rule _ _ x
    on_missing-Keeps (some e) pod last w j x = told-Keeps _ w j

    on_decision-Keeps :
        (stale : Option String) (pod : Pod) (last : Pvc) (w : Watch) (size : ℕ) (d : Decision)
        → J w
        → Bounded q value exact round.less round.other config.spec.policy size d
        → (d ≡ Decision.node_missing → X)
        → Keeps (on_decision q api round config stale pod last w d)
    on_decision-Keeps stale pod last w size (Decision.unknown_index text) j b x = told-Keeps _ w j
    on_decision-Keeps stale pod last w size (Decision.no_metrics text) j b x = told-Keeps _ w j
    on_decision-Keeps stale pod last w size Decision.size_ok j b x = pure_rule _ _ w j
    on_decision-Keeps stale pod last w size Decision.node_missing j b x =
        on_missing-Keeps stale pod last w j (x refl)
    on_decision-Keeps stale pod last w size Decision.at_maximum j b x = pure_rule _ _ w j
    on_decision-Keeps stale pod last w size (Decision.new_disk index parent) j b x =
        starts w _ j refl
    on_decision-Keeps stale pod last w size (Decision.resize capacity pvc) j b x =
        starts w _ j (refl, b.kept)

    pub on_sorted-Keeps :
        (stale : Option String) (pod : Pod) (info : Map F) (w : Watch) (family : List Pvc)
        → IsServed pod
        → (family ≡ [] → X)
        → J w
        → Keeps (on_sorted q api round config stale pod info w family)
    on_sorted-Keeps stale pod info w [] served x j = crash_rule _ _ (x refl)
    on_sorted-Keeps stale pod info w (parent ∷ rest) served x j =
        on_decision-Keeps (after_family q api round config stale (parent ∷ rest)) pod
          (last_of parent rest) w (length (parent ∷ rest)) _ j
          (decide-Bounded q value exact round.less round.other config info round.nodes pod.host_ip
            parent (last_of parent rest) (length (parent ∷ rest)))
          (λ e.
            panics.node_missing pod served
              (located pod info parent (last_of parent rest) (length (parent ∷ rest)) e))

    pub on_families-Keeps :
        (stale : Option String) (pod : Pod) (info : Map F) (visited : List (String × List Pvc))
        (w : Watch)
        → IsServed pod
        → All IsVisited visited
        → J w
        → Keeps (on_families q api round config stale pod info visited w)
    unfolding on_families
    on_families-Keeps stale pod info [] w served all j = pure_rule _ _ w j
    on_families-Keeps stale pod info ((name, family) ∷ rest) w served all j =
        then_rule _ _ J _ _ _
          (on_sorted-Keeps stale pod info w (round.by_creation family) served
            (panics.none_sorted name family all.0) j)
          λ v k.
            on_families-Keeps (after_family q api round config stale (round.by_creation family)) pod
              info rest v served all.1 k

    on_info-Keeps :
        (active : List Pvc) (pod : Pod) (w : Watch) (r : Result String (Map F))
        → IsServed pod
        → J w
        → Keeps (on_info q api round config active pod w r)
    on_info-Keeps active pod w (err e) served j = told-Keeps _ w j
    on_info-Keeps active pod w (ok info) served j =
        on_families-Keeps none pod info _ w served
          (All-map (λ _ k. (active, pod.volumes, k)) _
            (All-Among (round.visit (families active pod.volumes []))))
          j

    pub watch_pod-Keeps :
        (active : List Pvc) (pod : Pod) (w : Watch)
        → IsServed pod
        → J w
        → Keeps (watch_pod q api round config active pod w)
    unfolding watch_pod
    watch_pod-Keeps active pod w served j = then_rule _ _ _ _ _ _ (observe_rule _ api.now) λ now _.
        if-Keeps
          (is_some pod.deleted
            || is_after pod.created config.spec.policy.cool_down now
            || not (round.granted pod))
          (pure w) (ask_info q api round config active pod w) (pure_rule _ _ w j)
          (then_rule _ _ _ _ _ _ (call_rule _ _ _) λ r _. on_info-Keeps active pod w r served j)

    pub watch_pods-Keeps :
        (active : List Pvc) (pods : List Pod) (w : Watch)
        → All IsServed pods
        → J w
        → Keeps (watch_pods q api round config active pods w)
    unfolding watch_pods
    watch_pods-Keeps active [] w served j = pure_rule _ _ w j
    watch_pods-Keeps active (pod ∷ rest) w served j =
        then_rule _ _ J _ _ _ (watch_pod-Keeps active pod w served.0 j)
          λ v k. watch_pods-Keeps active rest v served.1 k

    abbrev Listed : Result ApiError (List Pod) → Type 0
    Listed r =
        (h : History) × (api.list_pods h config.namespace (render_unique_label config.uid)
            config.name
          ≡ r)

    on_pods-Keeps :
        (active : List Pvc) (w : Watch) (r : Result ApiError (List Pod))
        → Listed r
        → J w
        → Keeps (on_pods q api round config active w r)
    on_pods-Keeps active w (err e) told j = pure_rule _ _ w j
    on_pods-Keeps active w (ok pods) told j =
        watch_pods-Keeps active (round.in_order pods) w
          (All-map (λ _ k. (told.0, pods, told.1, k)) _ (All-Among (round.in_order pods))) j

    on_active-Keeps :
        (active : List Pvc) (w : Watch) → J w → Keeps (on_active q api round config active w)
    on_active-Keeps [] w j = pure_rule _ _ w j
    on_active-Keeps (pvc ∷ rest) w j =
        if-Keeps (api.is_requirement (render_unique_label config.uid) config.name)
          (ask_pods q api round config (pvc ∷ rest) w) (pure w)
          (then_rule _ _ Listed _ _ _ (call_rule _ _ _)
            λ r told. on_pods-Keeps (pvc ∷ rest) w r told j)
          (pure_rule _ _ w j)

    on_claims-Keeps :
        (w : Watch) (r : Result ApiError (List Pvc))
        → J w
        → Keeps (on_claims q api round config w r)
    on_claims-Keeps w (err e) j = pure_rule _ _ w j
    on_claims-Keeps w (ok pvcs) j = on_active-Keeps (keep (is_active api config) pvcs) w j

    pub watch_claims-Keeps : (w : Watch) → J w → Keeps (watch_claims q api round config w)
    unfolding watch_claims
    watch_claims-Keeps w j =
        if-Keeps (api.is_requirement "discoblocks" config.name) (ask_claims q api round config w)
          (pure w)
          (then_rule _ _ _ _ _ (on_claims q api round config w)
            (call_rule _ (Call.list_pvcs config.namespace "discoblocks" config.name)
              (λ h. api.list_pvcs h config.namespace "discoblocks" config.name))
            λ r _. on_claims-Keeps w r j)
          (pure_rule _ _ w j)
