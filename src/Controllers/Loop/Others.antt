-- ===== src/Controllers/Loop/Others.antt =====
-- controllers/pvc_controller.go: a round of the monitor for one of several DiskConfigs.
use discoblock.Base.{
  String, ◌||◌, List, [], ◌∷◌, ◌++◌, get, get-put, ◌≡◌, ◌≢◌, inr, arith, All, Among, eq_iff,
}
use discoblock.Base.Int.{ℤ}
use discoblock.Kube.Objects.{DiskConfig}
use discoblock.Kube.Quantity.{Quantity, Quantities, IsExact}
use discoblock.Kube.Exec.{pure}
use discoblock.Kube.Exec.Returns.{
  Returns, Never, Returns-pure, Returns-then, Returns-bind, Returns-observe, Returns-if,
}
use discoblock.Kube.Api.{Api}
use discoblock.Controllers.Rounds.{
  Work, Watch, Round, is_cooling, start, watch_claims, watch, watch_all,
}
use discoblock.Controllers.Rounds.Keeps.{Panics, watch_claims-Keeps}
use discoblock.Controllers.Rounds.Filled.{Orders}
use discoblock.Controllers.Rounds.Starts.{Comes, comes, NodeMissing, node_panics}

-- The time of a name is as it was.
abbrev pub Same : String → Watch → Watch → Type 0
Same name w v = get v.in_progress name ≡ get w.in_progress name

module _ {F : Type 0} (q : Quantities) (value : Quantity → ℤ) (exact : IsExact q value) (api : Api)
    (round : Round F) (orders : Orders round) (X : Type 0) where
  module _ (other : DiskConfig) (missing : NodeMissing q value exact api round other → X) where
    panics_of : Panics q value exact api round other X
    panics_of =
        let known = node_panics q value exact api round other orders in
        record {
          node_missing = λ pod served e. missing (known.node_missing pod served e);
          none_sorted = λ name family visited e. missing (known.none_sorted name family visited e);
        }

    -- What each start keeps, the round for a DiskConfig keeps.
    watch-Keeps :
        (J : Watch → Type 0)
        → ((v : Watch) (work : Work) → J v → Returns X Never J (start q api round other v work))
        → (w : Watch) → J w
        → Returns X Never J (watch q api round other w)
    unfolding watch
    watch-Keeps J starts w j = Returns-bind _ _ (Returns-observe api.now) λ now.
        Returns-if (other.spec.policy.pause || is_cooling other w.in_progress now) (pure w)
          (watch_claims q api round other w) (λ _. Returns-pure w j)
          (λ _.
            watch_claims-Keeps q value exact api round other X panics_of
              (Comes q value exact api round other X) (comes q value exact api round other X) J
              (λ v work k _. starts v work k) w j)

    watch-Same :
        (name : String) (w v : Watch)
        → other.name ≢ name
        → Same name w v
        → Returns X Never (Same name w) (watch q api round other v)
    watch-Same name w v ne same =
        watch-Keeps (Same name w)
          (λ u work k. Returns-bind _ _ (Returns-observe api.now) λ now. Returns-pure _ (
            ground
              (arith, get-put u.in_progress other.name name now, eq_iff other.name name, ne, k)))
          v same

    watch-Among :
        (work : Work) (v : Watch)
        → Among work v.started
        → Returns X Never (λ u. Among work u.started) (watch q api round other v)
    watch-Among work v k =
        watch-Keeps (λ u. Among work u.started)
          (λ u _ j. Returns-bind _ _ (Returns-observe api.now) λ now. Returns-pure _ (inr j)) v k

  -- A panic for one of these shows `X`.
  abbrev pub Told : DiskConfig → Type 0
  Told other = NodeMissing q value exact api round other → X

  watch_all-Among :
      (configs : List DiskConfig) (work : Work) (v : Watch)
      → All Told configs
      → Among work v.started
      → Returns X Never (λ u. Among work u.started) (watch_all q api round configs v)
  unfolding watch_all
  watch_all-Among [] work v told k = Returns-pure v k
  watch_all-Among (other ∷ rest) work v told k =
      Returns-then _ _ _ (watch-Among other told.0 work v k)
        λ u j. watch_all-Among rest work u told.1 j

  -- The round for a DiskConfig is not changed by those for DiskConfigs of other names.
  pub watch_all-started :
      (config : DiskConfig) (work : Work) (w : Watch)
      → ((v : Watch)
          → Same config.name w v
          → Returns X Never (λ u. Among work u.started) (watch q api round config v))
      → (before after : List DiskConfig) (v : Watch) → All Told before
      → All (λ other. other.name ≢ config.name) before
      → All Told after
      → Same config.name w v
      → Returns X Never
          (λ u. Among work u.started)
          (watch_all q api round (before ++ config ∷ after) v)
  unfolding watch_all
  watch_all-started config work w runs [] after v told ne later same =
      Returns-then _ _ _ (runs v same) λ u k. watch_all-Among after work u later k
  watch_all-started config work w runs (other ∷ before) after v told ne later same =
      Returns-then _ _ _ (watch-Same other told.0 config.name w v ne.0 same)
        λ u s. watch_all-started config work w runs before after u told.1 ne.1 later s
