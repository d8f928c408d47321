-- ===== src/Base/Maps.antt =====
-- Go's `map[string]V` as an association list. `get` answers the value of a key; a missing key
-- gives `none`, Go's zero value with `ok == false`.
use Prim.Native.String.{String}
use mathlib.Core.Path.{◌≡◌, refl}
use mathlib.Core.List.{List, [], ◌∷◌}
use mathlib.Core.Option.{Option, none, some}
use native.Mathlib.Omega.{arith}
use text.Mathlib.Text.{◌==◌}
use text.Mathlib.TextEquality.{eq_iff}
use discoblock.Base.Tests.{if◌then◌else◌}

abbrev pub Map {ℓ} : Type ℓ → Type ℓ
Map V = List (String × V)

module _ {ℓ} {V : Type ℓ} where
  unfoldable pub get : Map V → String → Option V
  get [] k = none
  get ((j, v) ∷ m) k = if j == k then some v else get m k

  -- `m[key] = value`: an entry of the key is replaced in its place, and a new one stands last.
  unfoldable pub put : Map V → String → V → Map V
  put [] key value = (key, value) ∷ []
  put ((old_key, old) ∷ rest) key value =
      if old_key == key then (key, value) ∷ rest else (old_key, old) ∷ put rest key value

  -- `delete(m, k)`
  unfoldable pub remove : Map V → String → Map V
  remove [] k = []
  remove ((j, w) ∷ m) k = let rest = remove m k in if j == k then rest else (j, w) ∷ rest

  pub get-put :
      (m : Map V) (k j : String) (v : V) → get (put m k v) j ≡ (if k == j then some v else get m j)
  unfolding get put
  get-put [] k j v = refl
  get-put ((i, w) ∷ m) k j v = ground (arith, get-put m k j v, eq_iff i j, eq_iff i k, eq_iff k j)

  pub get-remove :
      (m : Map V) (k j : String) → get (remove m k) j ≡ (if k == j then none else get m j)
  unfolding get remove
  get-remove [] k j = ground arith
  get-remove ((i, w) ∷ m) k j = ground (arith, get-remove m k j, eq_iff i j, eq_iff i k, eq_iff k j)

-- The labels and annotations of an object: a missing key reads as the empty text.
unfoldable pub label : Map String → String → String
unfolding get
label m k = elim (get m k) [ none ↦ "" | some v ↦ v ]

pub ruleset map_laws = (get-put, get-remove)
