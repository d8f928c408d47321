-- ===== src/Controllers/Rounds/Cools.antt =====
-- controllers/pvc_controller.go: the cool down between two rounds that start work.
use discoblock.Base.{
  ℕ, ◌+◌, ◌≤◌, ◌<◌, true, ◌||◌, some, ◌≡◌, ◌≢◌, ◌⊎◌, inl, inr, refl, sym, ap, arith, Map, get,
  get-put, eq_iff,
}
use mathlib.Core.Path.{subst}
use discoblock.Base.Int.{ℤ, pos_part, neg_part}
use discoblock.Kube.Objects.{DiskConfig}
use discoblock.Kube.Quantity.{Quantity, Quantities, IsExact}
use discoblock.Kube.Exec.{Flow, next, done, panic, pure}
use discoblock.Kube.Exec.Returns.{Ends}
use discoblock.Kube.Exec.After.{
  Steady, After, After-pure, After-crash, After-then, After-bind, After-observe, After-told,
  After-now, After-if,
}
use discoblock.Kube.Api.{Api, History}
use discoblock.Controllers.Volumes.{End}
use discoblock.Controllers.Volumes.Rules.{Finished}
use discoblock.Controllers.Volumes.Timed.{notify-After}
use discoblock.Controllers.Rounds.{Work, Watch, Round, is_cooling, start, watch_claims, watch}
use discoblock.Controllers.Rounds.Keeps.{Judgement, Logic, any_panic, IsStart, watch_claims-Keeps}

module _ {F : Type 0} (q : Quantities) (value : Quantity → ℤ) (exact : IsExact q value) (api : Api)
    (steady : Steady api.now) (round : Round F) (config : DiskConfig) where
  module _ (t : ℕ) where
    abbrev Comes : Judgement
    Comes A Q m = After api.now t (Unit {0}) Finished Q m

    comes : Logic api (Unit {0}) Comes
    comes = record {
      pure_rule = λ A Q a k. After-pure a k;
      crash_rule = λ A Q x. After-crash x;
      then_rule = λ A B S Q m f km kf. After-then S m f km kf;
      call_rule = λ A c f. After-told c f steady;
      observe_rule = λ A f. After-observe f;
      notify_rule = λ event. notify-After api steady event;
    }

    -- Nothing was started, or the name of the DiskConfig is marked with this time or a later one.
    abbrev Marked : Watch → Watch → Type 0
    Marked w v =
        (v.started ≡ w.started) ⊎ ((s : ℕ) × (t ≤ s) × (get v.in_progress config.name ≡ some s))

    start-Marked :
        (w v : Watch) (work : Work)
        → Marked w v
        → IsStart q value exact api round config work
        → Comes Watch (Marked w) (start q api round config v work)
    start-Marked w v work m is = After-now t _ λ now late. After-pure _ (
        inr (
          now,
          late,
          ground (
            arith,
            get-put v.in_progress config.name config.name now,
            eq_iff config.name config.name,
          ),
        ))

    watch-Marked : (w : Watch) → Comes Watch (Marked w) (watch q api round config w)
    unfolding watch
    watch-Marked w = After-bind _ _ (After-observe api.now) λ now.
        After-if (config.spec.policy.pause || is_cooling config w.in_progress now) (pure w)
          (watch_claims q api round config w) (λ _. After-pure w (inl refl))
          (λ _.
            watch_claims-Keeps q value exact api round config (Unit {0})
              (any_panic q value exact api round config) Comes comes (Marked w) (start-Marked w) w
              (inl refl))

  Marked-started :
      (w v : Watch) (t : ℕ)
      → v.started ≢ w.started
      → Marked t w v
      → (s : ℕ) × (t ≤ s) × (get v.in_progress config.name ≡ some s)
  Marked-started w v t ne (inl same) = absurd (ne same)
  Marked-started w v t ne (inr marked) = marked

  next-Marked :
      (w v : Watch) (h : History) (r : Flow End Watch)
      → Ends (Unit {0}) Finished (Marked (api.now h) w) r
      → r ≡ next v
      → v.started ≢ w.started
      → (s : ℕ) × (api.now h ≤ s) × (get v.in_progress config.name ≡ some s)
  next-Marked w v h (next u) m e ne =
      let same : u ≡ v = cc e in
      let marked : Marked (api.now h) w v = subst (λ x. Marked (api.now h) w x) same m in
      Marked-started w v (api.now h) ne marked
  next-Marked w v h (done r) m e ne = ground (arith, e)
  next-Marked w v h panic m e ne = ground (arith, e)

cooling :
    (config : DiskConfig) (m : Map ℕ) (now s : ℕ)
    → get m config.name ≡ some s
    → now + neg_part config.spec.policy.cool_down < s + pos_part config.spec.policy.cool_down
    → is_cooling config m now ≡ true
unfolding is_cooling
cooling config m now s e lt = ground arith

module _ {F G : Type 0} (q : Quantities) (value : Quantity → ℤ) (exact : IsExact q value)
    (api : Api) (steady : Steady api.now) (round : Round F) (later : Round G)
    (config other : DiskConfig) where
  -- After a round for a DiskConfig that started work, a round for a DiskConfig of that name makes no
  -- call and starts nothing while the time since the beginning of the first round is less than the
  -- cool down of the second, where the clock never goes back.
  pub watch-cools :
      (w v : Watch) (h g k : History)
      → watch q api round config w h ≡ (next v, g)
      → v.started ≢ w.started
      → other.name ≡ config.name
      → api.now k + neg_part other.spec.policy.cool_down
        < api.now h + pos_part other.spec.policy.cool_down
      → watch q api later other v k ≡ (next v, k)
  unfolding watch
  watch-cools w v h g k ran started same lt =
      let (s, late, mark) =
        next-Marked q value exact api steady round config w v h _
          ((watch-Marked q value exact api steady round config (api.now h) w).at h (omega arith)).0
          (ap (λ p. p.0) ran) started in
      let cool =
        cooling other v.in_progress (api.now k) s
          (subst (λ n. get v.in_progress n ≡ some s) (sym same) mark) (omega (arith, late, lt)) in
      ground (arith, cool)
