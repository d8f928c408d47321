-- ===== src/Controllers/Rounds/Calls.antt =====
-- controllers/pvc_controller.go: the calls of MonitorVolumes itself.
use discoblock.Base.{String, Option, some, List, [], ◌∷◌, Map, none, keep, is_some, not, ◌||◌}
use discoblock.Kube.Objects.{DiskConfig, Pvc, Pod}
use discoblock.Kube.Quantity.{Quantities}
use discoblock.Kube.Exec.{Result, ok, err, pure}
use discoblock.Kube.Exec.Emits.{
  Emits, emit_rules, Emits-pure, Emits-if, Emits-bind, Emits-call, Emits-observe, Emits-attempt,
  Emits-return,
}
use discoblock.Kube.Api.{Api, ApiError, Call}
use discoblock.Utils.Names.{render_unique_label}
use discoblock.Controllers.Volumes.Rules.{notify-Emits, Reads}
use discoblock.Controllers.Volumes.{finished}
use discoblock.Controllers.Monitor.{Decision}
use discoblock.Controllers.Rounds.{
  Watch, Round, is_active, is_after, is_cooling, after_family, on_missing, on_decision, on_sorted,
  on_families, on_info, ask_info, watch_pod, watch_pods, on_pods, ask_pods, on_active, on_claims,
  ask_claims, watch_claims, watch, watch_all, monitor_volumes,
}

-- The calls of a round are allowed.
pub record Watches (P : Call → Type 0) : Type 0 where
  pub reads : Reads P
  pub configs : P (Call.list_disk_configs none)
  pub claims : (namespace key value : String) → P (Call.list_pvcs namespace key value)
  pub pods : (namespace key value : String) → P (Call.list_pods namespace key value)
  pub info : (name namespace : String) → P (Call.fetch_disk_info name namespace)

module _ {P : Call → Type 0} (allowed : Watches P) {F : Type 0} (q : Quantities) (api : Api)
    (round : Round F) where
  module _ (config : DiskConfig) where
    on_missing-Emits :
        (stale : Option String) (pod : Pod) (last : Pvc) (w : Watch)
        → Emits P (on_missing q api round config stale pod last w)
    on_missing-Emits none pod last w = search emit_rules
    on_missing-Emits (some e) pod last w = search (emit_rules, notify-Emits api allowed.reads)

    on_decision-Emits :
        (stale : Option String) (pod : Pod) (last : Pvc) (w : Watch) (d : Decision)
        → Emits P (on_decision q api round config stale pod last w d)
    on_decision-Emits stale pod last w (Decision.unknown_index text) =
        search (emit_rules, notify-Emits api allowed.reads)
    on_decision-Emits stale pod last w (Decision.no_metrics text) =
        search (emit_rules, notify-Emits api allowed.reads)
    on_decision-Emits stale pod last w Decision.size_ok = search emit_rules
    on_decision-Emits stale pod last w Decision.node_missing = on_missing-Emits stale pod last w
    on_decision-Emits stale pod last w Decision.at_maximum = search emit_rules
    on_decision-Emits stale pod last w (Decision.new_disk index parent) = search emit_rules
    on_decision-Emits stale pod last w (Decision.resize capacity pvc) = search emit_rules

    on_sorted-Emits :
        (stale : Option String) (pod : Pod) (info : Map F) (w : Watch) (family : List Pvc)
        → Emits P (on_sorted q api round config stale pod info w family)
    on_sorted-Emits stale pod info w [] = search emit_rules
    on_sorted-Emits stale pod info w (parent ∷ rest) = on_decision-Emits _ pod _ w _

    on_families-Emits :
        (stale : Option String) (pod : Pod) (info : Map F) (visited : List (String × List Pvc))
        (w : Watch)
        → Emits P (on_families q api round config stale pod info visited w)
    unfolding on_families
    on_families-Emits stale pod info [] w = search emit_rules
    on_families-Emits stale pod info ((name, family) ∷ rest) w =
        Emits-bind _ _ (on_sorted-Emits stale pod info w (round.by_creation family)) λ v.
          on_families-Emits (after_family q api round config stale (round.by_creation family)) pod
            info rest v

    on_info-Emits :
        (active : List Pvc) (pod : Pod) (w : Watch) (r : Result String (Map F))
        → Emits P (on_info q api round config active pod w r)
    on_info-Emits active pod w (err e) = search (emit_rules, notify-Emits api allowed.reads)
    on_info-Emits active pod w (ok info) = on_families-Emits none pod info _ w

    watch_pod-Emits :
        (active : List Pvc) (pod : Pod) (w : Watch)
        → Emits P (watch_pod q api round config active pod w)
    unfolding watch_pod
    watch_pod-Emits active pod w = Emits-bind _ _ (Emits-observe api.now) λ now.
        Emits-if
          (is_some pod.deleted
            || is_after pod.created config.spec.policy.cool_down now
            || not (round.granted pod))
          (pure w) (ask_info q api round config active pod w) (λ _. Emits-pure w)
          λ _.
            Emits-bind _ _ (Emits-call _ _ (allowed.info pod.name pod.namespace))
              λ r. on_info-Emits active pod w r

    watch_pods-Emits :
        (active : List Pvc) (pods : List Pod) (w : Watch)
        → Emits P (watch_pods q api round config active pods w)
    unfolding watch_pods
    watch_pods-Emits active [] w = search emit_rules
    watch_pods-Emits active (pod ∷ rest) w =
        Emits-bind _ _ (watch_pod-Emits active pod w) λ v. watch_pods-Emits active rest v

    on_pods-Emits :
        (active : List Pvc) (w : Watch) (r : Result ApiError (List Pod))
        → Emits P (on_pods q api round config active w r)
    on_pods-Emits active w (err e) = search emit_rules
    on_pods-Emits active w (ok pods) = watch_pods-Emits active (round.in_order pods) w

    on_active-Emits :
        (active : List Pvc) (w : Watch) → Emits P (on_active q api round config active w)
    on_active-Emits [] w = search emit_rules
    on_active-Emits (pvc ∷ rest) w =
        Emits-if (api.is_requirement (render_unique_label config.uid) config.name)
          (ask_pods q api round config (pvc ∷ rest) w) (pure w)
          (λ _. Emits-bind _ _ (Emits-call _ _ (allowed.pods _ _ _)) (on_pods-Emits (pvc ∷ rest) w))
          (λ _. Emits-pure w)

    on_claims-Emits :
        (w : Watch) (r : Result ApiError (List Pvc)) → Emits P (on_claims q api round config w r)
    on_claims-Emits w (err e) = search emit_rules
    on_claims-Emits w (ok pvcs) = on_active-Emits (keep (is_active api config) pvcs) w

    watch_claims-Emits : (w : Watch) → Emits P (watch_claims q api round config w)
    unfolding watch_claims
    watch_claims-Emits w =
        Emits-if (api.is_requirement "discoblocks" config.name) (ask_claims q api round config w)
          (pure w)
          (λ _.
            Emits-bind _ (on_claims q api round config w)
              (Emits-call (Call.list_pvcs config.namespace "discoblocks" config.name)
                (λ h. api.list_pvcs h config.namespace "discoblocks" config.name)
                (allowed.claims _ _ _))
              (on_claims-Emits w))
          (λ _. Emits-pure w)

    pub watch-Emits : (w : Watch) → Emits P (watch q api round config w)
    unfolding watch
    watch-Emits w = Emits-bind _ _ (Emits-observe api.now) λ now.
        Emits-if (config.spec.policy.pause || is_cooling config w.in_progress now) (pure w)
          (watch_claims q api round config w) (λ _. Emits-pure w) (λ _. watch_claims-Emits w)

  watch_all-Emits :
      (configs : List DiskConfig) (w : Watch) → Emits P (watch_all q api round configs w)
  unfolding watch_all
  watch_all-Emits [] w = search emit_rules
  watch_all-Emits (config ∷ rest) w =
      Emits-bind _ _ (watch-Emits config w) λ v. watch_all-Emits rest v

  pub monitor_volumes-Emits : (w : Watch) → Emits P (monitor_volumes q api round w)
  unfolding monitor_volumes
  monitor_volumes-Emits w =
      Emits-bind _ _
        (Emits-attempt (Call.list_disk_configs none) (λ h. api.list_disk_configs h none) _
          allowed.configs (λ e. Emits-return finished))
        λ configs. watch_all-Emits configs w
