-- ===== src/Utils/Names.antt =====
-- pkg/utils/helpers.go: RenderFinalizer, RenderResourceName, RenderUniqueLabel, GetNamePrefix.
pub mod Bounds
use Prim.Native.String.{len, slice}
use discoblock.Base.{
  ℕ, ◌+◌, ◌≤◌, ◌<◌, String, ◌⧺◌, ◌≡◌, refl, Bool, true, false, List, [], ◌∷◌, Option, none, some,
  arith, if◌then◌else◌, ltb,
}
use discoblock.Text.Decimal.{format_uint}
use discoblock.Utils.Hash.{hash}
use discoblock.Kube.Objects.{
  AvailabilityMode, read_write_same, read_write_once, read_write_daemon, unknown_mode,
}

abbrev pub max_name : ℕ
max_name = 253

join_extras : String → List String → String
join_extras finalizer [] = finalizer
join_extras finalizer (e ∷ extras) = join_extras (finalizer ⧺ "-" ⧺ e) extras

unfoldable pub render_finalizer : String → List String → String
unfolding join_extras
render_finalizer name extras = join_extras ("discoblocks.io/" ⧺ name) extras

-- the loop that appends the hash of each element
write_hashes : String → List String → String
write_hashes builder [] = builder
write_hashes builder (e ∷ elems) = write_hashes (builder ⧺ "-" ⧺ format_uint (hash e)) elems

-- `builder.String()[:l]`
unfoldable pub cut : String → String
cut s = slice s 0 (if ltb max_name (len s) then max_name else len s)

-- `none` is the error "missing name elements"; Hash itself never fails.
unfoldable pub render_resource_name : Bool → List String → Option String
unfolding write_hashes cut
render_resource_name prefix [] = none
render_resource_name prefix (e ∷ elems) =
    some (cut (write_hashes (if prefix then "discoblocks" else e) (e ∷ elems)))

unfoldable pub render_unique_label : String → String
render_unique_label id = "discoblocks/" ⧺ format_uint (hash id)

-- `none` is the panic of the default case; `now` is the text of time.Now().
unfoldable pub get_name_prefix : AvailabilityMode → String → String → String → Option String
get_name_prefix read_write_once now config_uid node_name = some now
get_name_prefix read_write_same now config_uid node_name = some config_uid
get_name_prefix read_write_daemon now config_uid node_name = some node_name
get_name_prefix (unknown_mode am) now config_uid node_name = none

render_finalizer_runs : render_finalizer "nginx" ("default" ∷ []) ≡ "discoblocks.io/nginx-default"
unfolding render_finalizer
render_finalizer_runs = refl

render_resource_name_runs :
    render_resource_name true ("a" ∷ "" ∷ []) ≡ some "discoblocks-3826002220-2166136261"
unfolding render_resource_name hash format_uint
render_resource_name_runs = refl
