-- ===== src/Examples/Monitor.antt =====
-- The monitor's decision about a full disk.
use discoblock.Base.{
  ℕ, String, true, some, [], ◌∷◌, Map, get, label, ltb, ◌≡◌, ◌≢◌, refl, ap, inr, arith, ◌⊎◌, put,
}
use discoblock.Base.Int.{ℤ, pos, next_int}
use discoblock.Kube.Objects.{Pvc, claim}
use discoblock.Kube.Exec.{ok, next}
use discoblock.Kube.Exec.Returns.{Returns}
use discoblock.Kube.Api.{Api}
use discoblock.Kube.Exec.Returns.{Never}
use discoblock.Utils.Names.{render_finalizer}
use discoblock.Controllers.Rounds.{Round, Watch, watch, grow}
use discoblock.Controllers.Rounds.Cools.{watch-cools}
use discoblock.Controllers.Rounds.Starts.{IsDue, Grew, NodeMissing, watch-Grew}
use discoblock.Controllers.Rounds.Filled.{Orders}
use discoblock.Utils.Mount.{render_mount_point, contains_verb, percents}
use discoblock.Text.Decimal.{format_uint}
use discoblock.Controllers.Monitor.{
  Decision, decide, act_index, extend, judge_use, new_capacity, enough_disks,
}
use discoblock.Controllers.Monitor.Within.{Bounded, decide-Bounded, decide-distinct}
use discoblock.Examples.World.{config, pvc, pod, world}
use discoblock.Examples.Admission.{tally, tallies, tallies-IsExact}

abbrev pub no_other : String → ℤ → String
no_other pattern index = ""

-- the newest claim, as large as the policy allows
abbrev pub full : Pvc
full = record pvc { request = "IIIIIIIII" }

abbrev pub usage : Map ℕ
usage = ("/data-0", 90) ∷ []

abbrev pub nodes : Map String
nodes = ("10.0.0.1", "host-1") ∷ []

decide-Bounded_example :
    Bounded tallies tally tallies-IsExact ltb no_other config.spec.policy 1
      (decide tallies ltb no_other config usage nodes "10.0.0.1" pvc full 1)
decide-Bounded_example =
    decide-Bounded tallies tally tallies-IsExact ltb no_other config usage nodes "10.0.0.1" pvc full
      1

simple : (percents "/data-%d" ≡ 1) × (contains_verb "/data-%d" ≡ true)
unfolding percents contains_verb
simple = (refl, refl)

first_disk : act_index full ≡ some (pos 0)
unfolding act_index get
first_disk = refl

decided :
    decide tallies ltb no_other config usage nodes "10.0.0.1" pvc full 1
    ≡ Decision.new_disk (pos 1) pvc
unfolding decide act_index extend judge_use new_capacity enough_disks get label next_int
    render_mount_point format_uint
decided = refl

decide-distinct_example :
    render_mount_point no_other "/data-%d" "web" (pos 0)
    ≢ render_mount_point no_other "/data-%d" "web" (pos 1)
decide-distinct_example =
    decide-distinct tallies tally tallies-IsExact ltb no_other config usage nodes "10.0.0.1" pvc
      full 1 (pos 0) (pos 1) pvc (inr simple) first_disk (omega arith) decided

abbrev pub round : Round ℕ
round = record {
  fetch = λ h name namespace. ok usage;
  less = ltb;
  nodes = nodes;
  other = no_other;
  atoi_error = λ text. "";
  by_creation = λ claims. claims;
  visit = λ m. m;
  in_order = λ pods. pods;
  granted = λ p. true;
}

abbrev pub idle : Watch
idle = record { in_progress = []; started = [] }

pub round-Orders : Orders round
round-Orders = record {
  by_creation_kept = λ family ne. ne;
  visit_kept = λ P m all. all;
  in_order_kept = λ P pods all. all;
}

watch-Grew_example :
    Returns
      (NodeMissing tallies tally tallies-IsExact world round config)
      Never
      (λ v.
        (v ≡ idle)
        ⊎ (IsDue tallies tally tallies-IsExact world round config idle
            × Grew tallies tally tallies-IsExact world round config idle v))
      (watch tallies world round config idle)
watch-Grew_example = watch-Grew tallies tally tallies-IsExact world round config round-Orders idle

-- A pod that mounts the claim, long after its creation.
abbrev busy : Api
busy = record world {
  now = λ h. 600000000000;
  list_pods = λ h ns k v.
      ok (record pod { volumes = record { name = "data"; source = claim "pvc-1" } ∷ [] } ∷ []);
}

-- the round of the pod, which grows the claim
abbrev grown : Watch
grown = record {
  in_progress = ("web", 600000000000) ∷ [];
  started =
      grow config (record pod { volumes = record { name = "data"; source = claim "pvc-1" } ∷ [] })
        "III" pvc "host-1"
      ∷ [];
}

watch_runs : (watch tallies busy round config idle []).0 ≡ next grown
unfolding watch decide act_index extend judge_use new_capacity enough_disks get label put
    render_mount_point format_uint render_finalizer
watch_runs = refl

watch-cools_example : watch tallies busy round config grown [] ≡ (next grown, [])
watch-cools_example =
    watch-cools tallies tally tallies-IsExact busy (record { step = λ c h. omega arith }) round
      round config config idle grown [] (watch tallies busy round config idle []).1 []
      (ap (λ r. (r, (watch tallies busy round config idle []).1)) watch_runs) (λ e. cc e) refl
      (omega arith)
