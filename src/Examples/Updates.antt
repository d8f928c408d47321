-- ===== src/Examples/Updates.antt =====
-- A full disk leads to the update of its claim.
use discoblock.Base.{
  inr, ◌+◌, false, ℕ, [], ◌∷◌, get, label, ◌≡◌, refl, inl, Among, keep, eq_iff, arith, put,
}
use discoblock.Base.Int.{pos}
use discoblock.Kube.Objects.{Pod, claim}
use discoblock.Kube.Exec.{ok}
use discoblock.Kube.Api.{Api}
use discoblock.Utils.Names.{render_finalizer}
use discoblock.Controllers.Rounds.Families.{families, children_of}
use discoblock.Controllers.Rounds.{is_cooling, is_active}
use discoblock.Controllers.Rounds.Progress.{IsFull}
use discoblock.Controllers.Rounds.Progress.Watched.{Meets}
use discoblock.Controllers.Loop.{monitor_loop, tick}
use discoblock.Utils.Mount.{render_mount_point}
use discoblock.Text.Decimal.{format_uint}
use discoblock.Controllers.Monitor.{act_index}
use discoblock.Examples.World.{config, pvc, pod, world}
use discoblock.Examples.Admission.{tally, tallies, tallies-IsExact}
use discoblock.Controllers.Rounds.{is_after}
use discoblock.Controllers.Loop.Full.{RoundPanic, monitor_loop-Updates}
use discoblock.Controllers.Waits.Enough.{Ticks}
use discoblock.Kube.Exec.Reaches.{Reaches}
use discoblock.Kube.Api.{Made, Call}
use discoblock.Kube.Objects.{DiskConfig}
use discoblock.Controllers.Resize.{with_request}
use discoblock.Examples.Volumes.{clock}
use discoblock.Examples.Monitor.{round, round-Orders, usage, nodes, idle}
use discoblock.Controllers.Rounds.{watch, create, trim_prefix}
use discoblock.Controllers.Rounds.Progress.Watched.{watch-Started}
use discoblock.Controllers.Rounds.Starts.{NodeMissing}
use discoblock.Kube.Exec.Returns.{Returns, Never}
use discoblock.Examples.Monitor.{full}
use discoblock.Base.Int.{next_int}

-- A DiskConfig of another name, which is listed first.
abbrev other : DiskConfig
other = record config { meta = record (config.meta) { name = "db" } }

-- A pod that mounts the claim, long after its creation.
abbrev later : Api
later = record world {
  now = λ h. 600000000000 + clock h;
  list_disk_configs = λ h ns. ok (other ∷ config ∷ []);
  list_pods = λ h ns k v.
      ok (record pod { volumes = record { name = "data"; source = claim "pvc-1" } ∷ [] } ∷ []);
}

later-Ticks : Ticks later
later-Ticks = record { steady = record { step = λ c h. omega arith }; slept = λ ns h. omega arith }

created_long_ago :
    (n : ℕ) → is_after pod.created config.spec.policy.cool_down (600000000000 + n) ≡ false
created_long_ago n = ground arith

abbrev mounting : Pod
mounting = record pod { volumes = record { name = "data"; source = claim "pvc-1" } ∷ [] }

world_met : Meets later round config idle (pvc ∷ []) (mounting ∷ []) mounting usage
unfolding is_cooling get
world_met = record {
  running = refl;
  warm = λ h. refl;
  claim_selector = refl;
  pod_selector = refl;
  claims = λ h. refl;
  pods_listed = λ h. refl;
  scheduled = inl refl;
  old = λ h. created_long_ago (clock h);
  alive = refl;
  granted = refl;
  informed = λ h. refl;
}

family_met :
    Among
      ("pvc-1", pvc ∷ [])
      (round.visit (families (keep (is_active later config) (pvc ∷ [])) mounting.volumes []))
unfolding families is_active get put render_finalizer children_of
family_met = inl refl

used_up : IsFull tallies round config mounting usage pvc 1 (pos 0) 90
unfolding act_index get label render_mount_point format_uint
used_up = record {
  indexed = refl;
  measured = refl;
  reached = refl;
  located = λ e. cc ((eq_iff (label nodes "10.0.0.1") "").1 e);
  room = λ e. cc e;
}

monitor_loop-Updates_example :
    Reaches
      (RoundPanic tallies tally tallies-IsExact later later-Ticks round round-Orders
        (other ∷ [])
        config
        [])
      (Made (Call.update_pvc (with_request "III" pvc)))
      (monitor_loop tallies later (tick round ∷ tick round ∷ []) idle)
monitor_loop-Updates_example =
    monitor_loop-Updates tallies tally tallies-IsExact later later-Ticks round round-Orders
      (other ∷ []) config [] (λ h. refl) ((λ e. cc e), tt) idle (pvc ∷ []) (mounting ∷ []) mounting
      usage world_met "pvc-1" (pvc ∷ []) pvc [] (pos 0) 90 family_met refl used_up refl
      (tick round ∷ [])

-- The claim has the maximum capacity, so that the family gets a second disk.
abbrev grown_up : Api
grown_up = record later { list_pvcs = λ h ns k v. ok (full ∷ []) }

grown_met : Meets grown_up round config idle (full ∷ []) (mounting ∷ []) mounting usage
unfolding is_cooling get
grown_met = record {
  running = refl;
  warm = λ h. refl;
  claim_selector = refl;
  pod_selector = refl;
  claims = λ h. refl;
  pods_listed = λ h. refl;
  scheduled = inl refl;
  old = λ h. created_long_ago (clock h);
  alive = refl;
  granted = refl;
  informed = λ h. refl;
}

grown_family :
    Among
      ("pvc-1", full ∷ [])
      (round.visit (families (keep (is_active grown_up config) (full ∷ [])) mounting.volumes []))
unfolding families is_active get put render_finalizer children_of
grown_family = inl refl

full_up : IsFull tallies round config mounting usage full 1 (pos 0) 90
unfolding act_index get label render_mount_point format_uint
full_up = record {
  indexed = refl;
  measured = refl;
  reached = refl;
  located = λ e. cc ((eq_iff (label nodes "10.0.0.1") "").1 e);
  room = λ e. inr (omega arith);
}

watch-Started_example :
    Returns
      (NodeMissing tallies tally tallies-IsExact grown_up round config)
      Never
      (λ v. Among (create config mounting full [] "host-1" (pos 1)) v.started)
      (watch tallies grown_up round config idle)
unfolding label get trim_prefix next_int
watch-Started_example =
    watch-Started tallies tally tallies-IsExact grown_up round round-Orders config idle (full ∷ [])
      (mounting ∷ []) mounting usage grown_met "pvc-1" (full ∷ []) full [] (pos 0) 90 grown_family
      refl full_up
