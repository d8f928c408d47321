-- ===== src/Examples/Text.antt =====
-- The texts, names, sizes and locks at concrete inputs.
use Prim.Native.String.{len}
use discoblock.Base.{◌+◌, String, ◌⧺◌, true, [], ◌∷◌, ◌≡◌, ◌≢◌, refl, inr, ◌≤◌, length, arith}
use discoblock.Base.Int.{ℤ, pos}
use discoblock.Kube.Exec.{ok}
use discoblock.Text.Decimal.{format_uint}
use discoblock.Utils.Mount.{render_mount_point, contains_verb, percents}
use discoblock.Utils.Mount.Distinct.{render_mount_point_distinct}
use discoblock.Utils.Capacity.{parse_capacity, is_unit}
use discoblock.Utils.Capacity.RoundTrip.{parse_capacity-format}
use discoblock.Utils.Semaphore.{
  Semaphore, create_semaphore, Reach, here, then_step, lock, unlock, total, inside, again,
  semaphore_bounds,
}
use discoblock.Utils.Names.{render_resource_name, max_name}
use discoblock.Utils.Names.Bounds.{render_resource_name-le}
use discoblock.Utils.Hash.{hash}

abbrev no_other : String → ℤ → String
no_other pattern index = ""

simple_data : (percents "/data-%d" ≡ 1) × (contains_verb "/data-%d" ≡ true)
unfolding percents contains_verb
simple_data = (refl, refl)

render_mount_point_distinct_example :
    render_mount_point no_other "/data-%d" "web" (pos 2)
    ≢ render_mount_point no_other "/data-%d" "web" (pos 12)
render_mount_point_distinct_example =
    render_mount_point_distinct no_other "/data-%d" "web" (pos 2) (pos 12) (inr simple_data)
      (omega arith) (omega arith) (λ e. ground arith)

unit_gi : is_unit "Gi" ≡ true
unfolding is_unit
unit_gi = refl

parse_capacity-format_example : parse_capacity (format_uint 500 ⧺ "Gi") ≡ ok (500, "Gi")
parse_capacity-format_example = parse_capacity-format 500 "Gi" (omega arith) unit_gi

-- One thread is inside, and another one has left.
abbrev one_inside : Semaphore
one_inside = record { concurrency = 2; used = 1; unlocks = 0 ∷ 1 ∷ [] }

reached : Reach (create_semaphore 2) one_inside
unfolding create_semaphore
reached =
    then_step
      (then_step (then_step here (lock _ (omega arith))) (unlock _ [] 0 [] refl (omega arith)))
      (lock _ (omega arith))

semaphore_bounds_example :
    (1 ≤ 2)
    × (1 + total one_inside.unlocks ≡ length one_inside.unlocks)
    × (inside one_inside.unlocks ≡ 1 + again one_inside.unlocks)
semaphore_bounds_example = semaphore_bounds 2 reached

render_resource_name-le_example : len "discoblocks-3826002220-2166136261" ≤ max_name
unfolding render_resource_name hash format_uint
render_resource_name-le_example = render_resource_name-le true ("a" ∷ "" ∷ []) refl
