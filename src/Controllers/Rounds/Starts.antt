-- ===== src/Controllers/Rounds/Starts.antt =====
-- controllers/pvc_controller.go: the work that MonitorVolumes starts for a DiskConfig.
use discoblock.Base.{
  false, ◌||◌, List, [], ◌∷◌, ◌++◌, ◌≡◌, ◌⊎◌, inl, inr, refl, ap, arith, All, All-Among, Among,
  Among-All, label,
}
use discoblock.Utils.Names.{render_unique_label}
use discoblock.Base.Int.{ℤ}
use discoblock.Kube.Objects.{DiskConfig, Pod}
use discoblock.Kube.Quantity.{Quantity, Quantities, IsExact}
use discoblock.Kube.Exec.{ok, pure}
use discoblock.Kube.Exec.Returns.{
  Never, Returns, Returns-pure, Returns-crash, Returns-then, Returns-bind, Returns-told,
  Returns-observe, Returns-if, Returns-seen, Returns-implies,
}
use discoblock.Kube.Api.{Api, History}
use discoblock.Controllers.Volumes.Rules.{notify-Returns}
use discoblock.Controllers.Rounds.Filled.{Orders, IsFilled, families-IsFilled}
use discoblock.Controllers.Rounds.Keeps.{Judgement, Logic, Panics, IsStart, watch_claims-Keeps}
use discoblock.Controllers.Rounds.{Work, Watch, Round, is_cooling, start, watch_claims, watch}

module _ {F : Type 0} (q : Quantities) (value : Quantity → ℤ) (exact : IsExact q value) (api : Api)
    (round : Round F) (config : DiskConfig) where
  -- Works of that kind stand before those that were there.
  abbrev pub Grew : Watch → Watch → Type 0
  Grew w w' =
      (works : List Work) × (w'.started ≡ works ++ w.started)
      × All (IsStart q value exact api round config) works

  -- The DiskConfig was not paused, and no start of its name was within the cool down.
  abbrev pub IsDue : Watch → Type 0
  IsDue w =
      (config.spec.policy.pause ≡ false)
      × ((h : History) × (is_cooling config w.in_progress (api.now h) ≡ false))

  -- An action comes to a value of that kind, or it panics.
  abbrev pub Comes : Type 0 → Judgement
  Comes X A Q m = Returns X Never Q m

  pub comes : (X : Type 0) → Logic api X (Comes X)
  comes X = record {
    pure_rule = λ A Q a k. Returns-pure a k;
    crash_rule = λ A Q x. Returns-crash x;
    then_rule = λ A B S Q m f km kf. Returns-then S m f km kf;
    call_rule = λ A c f. Returns-told c f;
    observe_rule = λ A f. Returns-observe f;
    notify_rule = λ event. notify-Returns api event;
  }

  module _ (X : Type 0) (panics : Panics q value exact api round config X) (w : Watch) where
    start-Grew :
        (v : Watch) (work : Work)
        → Grew w v
        → IsStart q value exact api round config work
        → Comes X Watch (Grew w) (start q api round config v work)
    start-Grew v work (works, same, all) is =
        Returns-bind _ _ (Returns-observe _)
          λ now. Returns-pure _ (work ∷ works, ap (λ l. work ∷ l) same, (is, all))

    -- whatever a panic shows
    pub watch_grows :
        Returns X Never (λ v. (v ≡ w) ⊎ (IsDue w × Grew w v)) (watch q api round config w)
    unfolding watch
    watch_grows = Returns-then _ _ _ (Returns-seen api.now) λ now seen.
        Returns-if (config.spec.policy.pause || is_cooling config w.in_progress now) (pure w)
          (watch_claims q api round config w) (λ _. Returns-pure w (inl refl))
          (λ due.
            Returns-implies
              (λ v g. inr (((ground (arith, due)), (seen.0, ground (arith, due, seen.1))), g)) _
              (watch_claims-Keeps q value exact api round config X panics (Comes X) (comes X)
                (Grew w) start-Grew w ([], refl, tt)))

  -- The monitor panics for a pod that the server listed and whose node is not in the cache.
  abbrev pub NodeMissing : Type 0
  NodeMissing =
      (h : History) × (pods : List Pod) × (pod : Pod) × (api.list_pods h config.namespace
          (render_unique_label config.uid) config.name
        ≡ ok pods)
      × Among pod pods
      × (label round.nodes pod.host_ip ≡ "")

  pub node_panics : Orders round → Panics q value exact api round config NodeMissing
  node_panics orders = record {
    node_missing = λ pod (h, pods, told, k) e. (
      h,
      pods,
      pod,
      told,
      Among-All (λ p. Among p pods) pod _ k (orders.in_order_kept _ pods (All-Among pods)),
      e,
    );
    none_sorted = λ name family (active, volumes, k) e. absurd (
        orders.by_creation_kept family
          (Among-All IsFilled (name, family) _ k
            (orders.visit_kept IsFilled _ (families-IsFilled active volumes [] tt)))
          e);
  }

  -- The monitor's round for a DiskConfig panics only for a pod that the server listed and whose node
  -- is not in the cache. Else it changes nothing, or the DiskConfig is not paused, the cool down of its
  -- name is over, and each work that is started is for the DiskConfig, a resize only up to the maximum
  -- capacity. The condition is that sorting, and iterating over a map and over goroutines, lose and
  -- invent nothing.
  pub watch-Grew :
      (orders : Orders round) (w : Watch)
      → Returns NodeMissing Never (λ v. (v ≡ w) ⊎ (IsDue w × Grew w v)) (watch q api round config w)
  watch-Grew orders w = watch_grows NodeMissing (node_panics orders) w
