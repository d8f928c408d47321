-- ===== src/Utils/Mount.antt =====
-- pkg/utils/helpers.go: RenderMountPoint, with the `fmt.Sprintf(pattern, index)` that it makes.
pub mod Distinct
use discoblock.Base.{
  ℕ, zero, suc, ◌+◌, Char, code, String, ◌⧺◌, ◌≡◌, refl, Bool, true, false, ◌&&◌, not, Option, none,
  some, ◌==◌, str_eq, if◌then◌else◌, is_some,
}
use discoblock.Base.Int.{ℤ, pos, negsuc}
use discoblock.Text.Decimal.{format_int}

-- How many times `%` stands in a text.
unfoldable pub percents : String → ℕ
percents String.[] = 0
percents (String.◌∷◌ c s) = if code c == b'%' then suc (percents s) else percents s

-- What follows `d`, if the text begins with it.
unfoldable pub after_d : String → Option String
after_d String.[] = none
after_d (String.◌∷◌ c s) = if code c == b'd' then some s else none

unfoldable pub verb_at : Char → String → Option String
unfolding after_d
verb_at c s = if code c == b'%' then after_d s else none

abbrev pub push_front : Char → Option (String × String) → Option (String × String)
push_front c none = none
push_front c (some (a, b)) = some (String.◌∷◌ c a, b)

-- The texts before and after the first `%d`.
unfoldable pub split_verb : String → Option (String × String)
unfolding verb_at
split_verb String.[] = none
split_verb (String.◌∷◌ c s) =
    let rest = push_front c (split_verb s) in
    elim (verb_at c s) [ none ↦ rest | some t ↦ some (String.[], t) ]

-- `strings.Contains(pattern, "%d")`
unfoldable pub contains_verb : String → Bool
unfolding split_verb
contains_verb s = is_some (split_verb s)

abbrev pub splice : Option (String × String) → String → String → String
splice none number otherwise = otherwise
splice (some (before, after)) number otherwise = before ⧺ number ⧺ after

-- `fmt.Sprintf(pattern, index)`. Where `%d` is the only `%` of the pattern, the index takes its
-- place; what other verbs print is the parameter `other`.
unfoldable pub sprintf : (String → ℤ → String) → String → ℤ → String
unfolding split_verb percents format_int
sprintf other pattern index =
    if percents pattern == 1
    then splice (split_verb pattern) (format_int index) (other pattern index)
    else other pattern index

abbrev pub is_zero : ℤ → Bool
is_zero (pos zero) = true
is_zero _ = false

-- `pattern += "-%d"` on the way to a second disk
unfoldable pub number_pattern : String → ℤ → String
unfolding contains_verb
number_pattern pattern index =
    if not (is_zero index) && not (contains_verb pattern) then pattern ⧺ "-%d" else pattern

unfoldable pub render_pattern : (String → ℤ → String) → String → ℤ → String
unfolding contains_verb sprintf
render_pattern other pattern index =
    if not (contains_verb pattern) then pattern else sprintf other pattern index

unfoldable pub render_mount_point : (String → ℤ → String) → String → String → ℤ → String
unfolding number_pattern render_pattern
render_mount_point other pattern name index =
    if str_eq pattern ""
    then "/media/discoblocks/" ⧺ name ⧺ "-" ⧺ format_int index
    else render_pattern other (number_pattern pattern index) index

abbrev no_other : String → ℤ → String
no_other pattern index = ""

-- The cases of helpers_test.go.
render_mount_point_runs :
    (render_mount_point no_other "" "foo" (pos 1) ≡ "/media/discoblocks/foo-1")
    × (render_mount_point no_other "/bar-%d" "foo" (pos 1) ≡ "/bar-1")
    × (render_mount_point no_other "/bar" "foo" (pos 0) ≡ "/bar")
    × (render_mount_point no_other "/bar" "foo" (pos 1) ≡ "/bar-1")
unfolding render_mount_point
render_mount_point_runs = (refl, refl, refl, refl)
