-- ===== src/Controllers/Monitor.antt =====
-- controllers/pvc_controller.go: what MonitorVolumes does about one family of claims of a pod, the
-- claims that share a parent, sorted by their creation. The events that it sends on the way, the mark
-- in InProgress and the work that it starts are not part of the decision.
pub mod Within
use discoblock.Base.{
  ℕ, ◌<◌, String, Bool, true, false, not, ◌&&◌, Option, none, some, if◌then◌else◌, ltb, leb, str_eq,
  Map, get, label,
}
use discoblock.Base.Int.{ℤ, pos, next_int}
use discoblock.Kube.Objects.{DiskConfig, Policy, Pvc}
use discoblock.Kube.Quantity.{Quantity, Quantities, exceeds}
use discoblock.Text.Decimal.{atoi}
use discoblock.Utils.Mount.{render_mount_point}

-- The ways in which a round ends. After `node_missing` comes an event with `err`, or a panic
-- where that is nil.
pub data Decision : Type 0 where
  unknown_index no_metrics : String → Decision
  size_ok node_missing at_maximum : Decision
  new_disk : ℤ → Pvc → Decision
  resize : Quantity → Pvc → Decision

-- `actIndex`: 0 without the label, and `none` if the label is no number
unfoldable pub act_index : Pvc → Option ℤ
act_index pvc = elim (get pvc.labels "discoblocks-index") [
  | none ↦ some (pos 0)
  | some text ↦ atoi text
]

-- `less used trigger` is the comparison of the float of the disk information with the percentage, and
-- `other` what Sprintf prints for patterns with other verbs.
module _ (q : Quantities) {F : Type 0} (less : F → ℕ → Bool) (other : String → ℤ → String) where
  unfoldable pub new_capacity : Policy → Pvc → Quantity
  new_capacity policy last = q.add policy.extend_capacity last.request

  unfoldable pub enough_disks : Policy → ℕ → Bool
  enough_disks policy size =
      ltb 0 policy.maximum_number_of_disks && leb policy.maximum_number_of_disks size

  -- from the search of the node on; `size` is the number of claims in the family
  unfoldable pub extend : Policy → Map String → String → Pvc → Pvc → ℕ → ℤ → Decision
  unfolding new_capacity enough_disks
  extend policy nodes host_ip parent last size index =
      if str_eq (label nodes host_ip) ""
      then Decision.node_missing
      else if exceeds q (new_capacity policy last) policy.maximum_capacity_of_disk
      then if enough_disks policy size
        then Decision.at_maximum
        else Decision.new_disk (next_int index) parent
      else Decision.resize (new_capacity policy last) last

  unfoldable pub judge_use : Policy → Option F → Decision → Decision
  judge_use policy none more = Decision.no_metrics "Unable to find metrics"
  judge_use policy (some used) more =
      if less used policy.upscale_trigger_percentage then Decision.size_ok else more

  -- one round of the loop over the families: `parent` is the oldest claim and `last` the newest
  unfoldable pub decide : DiskConfig → Map F → Map String → String → Pvc → Pvc → ℕ → Decision
  unfolding extend judge_use
  decide config info nodes host_ip parent last size = elim (act_index last) [
    | none ↦ Decision.unknown_index (label last.labels "discoblocks-index")
    | some index ↦
        judge_use config.spec.policy
          (get info (render_mount_point other config.spec.mount_point_pattern config.name index))
          (extend config.spec.policy nodes host_ip parent last size index)
  ]
