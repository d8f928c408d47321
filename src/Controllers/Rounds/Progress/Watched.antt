-- ===== src/Controllers/Rounds/Progress/Watched.antt =====
-- controllers/pvc_controller.go: the round for a DiskConfig with a full disk.
use discoblock.Base.{
  String, true, false, ◌||◌, none, List, [], ◌∷◌, Map, keep, ◌≡◌, refl, sym, ◌∙◌, arith, All,
  All-map, All-Among, Among, Among-All, length,
}
use mathlib.Core.Path.{subst}
use discoblock.Base.Int.{ℤ}
use discoblock.Kube.Objects.{DiskConfig, Pvc, Pod}
use discoblock.Kube.Quantity.{Quantity, Quantities, IsExact}
use discoblock.Kube.Exec.{Result, ok, pure}
use discoblock.Kube.Exec.Returns.{
  Never, Returns, Returns-then, Returns-told, Returns-if, Returns-seen,
}
use discoblock.Kube.Api.{Api, ApiError, Call, History}
use discoblock.Utils.Names.{render_unique_label}
use discoblock.Controllers.Rounds.Families.{families}
use discoblock.Controllers.Rounds.{
  Watch, Round, is_after, is_cooling, is_active, last_of, on_pods, ask_pods, on_active, on_claims,
  ask_claims, watch_claims, watch,
}
use discoblock.Controllers.Rounds.Filled.{Orders, families-none}
use discoblock.Controllers.Rounds.Starts.{NodeMissing, node_panics}
use discoblock.Controllers.Rounds.Progress.{IsFull, response, watch_pods-Started}

-- What the round meets, whenever it asks: the selectors are valid, the server lists these claims and
-- pods, the pod runs and is older than the cool down, its goroutine gets a slot, and its disk
-- information is there.
pub record Meets {F : Type 0} (api : Api) (round : Round F) (config : DiskConfig) (w : Watch)
    (pvcs : List Pvc) (pods : List Pod) (pod : Pod) (info : Map F) : Type 0 where
  pub running : config.spec.policy.pause ≡ false
  pub warm : (h : History) → is_cooling config w.in_progress (api.now h) ≡ false
  pub claim_selector : api.is_requirement "discoblocks" config.name ≡ true
  pub pod_selector : api.is_requirement (render_unique_label config.uid) config.name ≡ true
  pub claims : (h : History) → api.list_pvcs h config.namespace "discoblocks" config.name ≡ ok pvcs
  pub pods_listed :
      (h : History)
      → api.list_pods h config.namespace (render_unique_label config.uid) config.name ≡ ok pods
  pub scheduled : Among pod (round.in_order pods)
  pub old : (h : History) → is_after pod.created config.spec.policy.cool_down (api.now h) ≡ false
  pub alive : pod.deleted ≡ none
  pub granted : round.granted pod ≡ true
  pub informed : (h : History) → round.fetch h pod.name pod.namespace ≡ ok info

module _ {F : Type 0} (q : Quantities) (value : Quantity → ℤ) (exact : IsExact q value) (api : Api)
    (round : Round F) (orders : Orders round) (config : DiskConfig) (w : Watch) (pvcs : List Pvc)
    (pods : List Pod) (pod : Pod) (info : Map F)
    (meets : Meets api round config w pvcs pods pod info) (name : String) (family : List Pvc)
    (parent : Pvc) (rest : List Pvc) (index : ℤ) (used : F)
    (met : Among
      (name, family)
      (round.visit (families (keep (is_active api config) pvcs) pod.volumes [])))
    (sorted : round.by_creation family ≡ parent ∷ rest)
    (full : IsFull q round config pod info
      (last_of parent rest)
      (length (parent ∷ rest))
      index
      used) where
  abbrev X : Type 0
  X = NodeMissing q value exact api round config

  abbrev Started : Watch → Type 0
  Started v = Among (response q round config pod info parent (last_of parent rest) index) v.started

  abbrev active : List Pvc
  active = keep (is_active api config) pvcs

  on_pods-Started :
      (h : History) (r : Result ApiError (List Pod))
      → api.list_pods h config.namespace (render_unique_label config.uid) config.name ≡ r
      → r ≡ ok pods
      → Returns X Never Started (on_pods q api round config active w r)
  on_pods-Started h r told e =
      subst (λ x. Returns X Never Started (on_pods q api round config active w x)) (sym e)
        (watch_pods-Started q value exact api round config X
          (node_panics q value exact api round config orders) pod info name family parent rest index
          used sorted full active met meets.old meets.alive meets.granted meets.informed
          (round.in_order pods) w
          (All-map (λ _ k. (h, pods, told ∙ e, k)) _ (All-Among (round.in_order pods)))
          meets.scheduled)

  ask_pods-Started : Returns X Never Started (ask_pods q api round config active w)
  ask_pods-Started =
      Returns-then _ _ (λ r. on_pods q api round config active w r) (Returns-told _ _)
        λ r told. on_pods-Started told.0 r told.1 (sym told.1 ∙ meets.pods_listed told.0)

  -- A family that was met is of a claim.
  no_claims : active ≡ [] → ⊥
  no_claims e =
      Among-All (λ _. ⊥) (name, family) _
        (subst (λ (l : List Pvc). Among (name, family) (round.visit (families l pod.volumes []))) e
          met)
        (orders.visit_kept (λ _. ⊥) _
          (subst (λ m. All (λ _. ⊥) m) (sym (families-none pod.volumes [])) tt))

  on_active-Started :
      (claims : List Pvc)
      → active ≡ claims
      → Returns X Never Started (on_active q api round config claims w)
  on_active-Started [] e = absurd (no_claims e)
  on_active-Started (pvc ∷ more) e =
      Returns-if (api.is_requirement (render_unique_label config.uid) config.name)
        (ask_pods q api round config (pvc ∷ more) w) (pure w)
        (λ _.
          subst (λ l. Returns X Never Started (ask_pods q api round config l w)) e ask_pods-Started)
        (λ refused. absurd (ground (arith, refused, meets.pod_selector)))

  on_claims-Started :
      (r : Result ApiError (List Pvc))
      → r ≡ ok pvcs
      → Returns X Never Started (on_claims q api round config w r)
  on_claims-Started r e =
      subst (λ x. Returns X Never Started (on_claims q api round config w x)) (sym e)
        (on_active-Started active refl)

  watch_claims-Started : Returns X Never Started (watch_claims q api round config w)
  unfolding watch_claims
  watch_claims-Started =
      Returns-if (api.is_requirement "discoblocks" config.name) (ask_claims q api round config w)
        (pure w)
        (λ _.
          Returns-then _ _ (λ r. on_claims q api round config w r)
            (Returns-told (Call.list_pvcs config.namespace "discoblocks" config.name)
              (λ h. api.list_pvcs h config.namespace "discoblocks" config.name))
            λ r told. on_claims-Started r (sym told.1 ∙ meets.claims told.0))
        (λ refused. absurd (ground (arith, refused, meets.claim_selector)))

  -- Where a DiskConfig is neither paused nor within its cool down, its selectors are valid, and
  -- whenever a round asks the server lists its claims and a pod that is not being deleted, is older
  -- than the cool down, gets a slot, and has disk information and a node in the cache: if the use of
  -- the newest claim of a family of this pod has reached the trigger, the round starts the growth of
  -- this claim by the extend capacity where that does not exceed the maximum capacity, and else,
  -- where the family has fewer claims than the maximum number of disks, or there is no such maximum,
  -- the creation of a disk with the next index. It panics only for a listed pod whose node is not in
  -- the cache. The condition is that sorting, and iterating over a map and over goroutines, lose and
  -- invent nothing.
  pub watch-Started : Returns X Never Started (watch q api round config w)
  unfolding watch
  watch-Started = Returns-then _ _ _ (Returns-seen api.now) λ now seen.
      Returns-if (config.spec.policy.pause || is_cooling config w.in_progress now) (pure w)
        (watch_claims q api round config w)
        (λ skipped. absurd (ground (arith, skipped, meets.running, meets.warm seen.0, seen.1)))
        (λ _. watch_claims-Started)
