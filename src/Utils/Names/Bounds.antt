-- ===== src/Utils/Names/Bounds.antt =====
-- pkg/utils/helpers.go: the length of RenderResourceName and the names behind RenderFinalizer.
use Prim.Native.Nat.{compare, Ordering}
use Prim.Native.Char.{Char, len_utf8}
use Prim.Native.String.{len, slice, fits}
use mathlib.Core.Path.{subst}
use Prim.Native.String.slice
use Prim.Native.String.len
use discoblock.Base.{ℕ, ◌-◌, ◌≤◌, String, ◌≡◌, refl, Bool, List, [], ◌∷◌, some, arith}
use discoblock.Utils.Names.{max_name, cut, render_resource_name}

len-fits-le :
    (o : Ordering) (c : Char) (t : String) (b : ℕ)
    → compare (len_utf8 c) b ≡ o
    → len t ≤ b - len_utf8 c
    → len (fits o c t) ≤ b
len-fits-le Ordering.lt c t b e h = rw (len.cons c t) (ground arith)
len-fits-le Ordering.eq c t b e h = rw (len.cons c t) (ground arith)
len-fits-le Ordering.gt c t b e h = rw len.nil (omega arith)

len-slice-le : (s : String) (b : ℕ) → len (slice s 0 b) ≤ b
len-slice-le String.[] b = rw (slice.nil 0 b, len.nil) (omega arith)
len-slice-le (String.◌∷◌ c s) b = rw (slice.cons-zero c s b) (
    len-fits-le (compare (len_utf8 c) b) c (slice s 0 (b - len_utf8 c)) b refl
      (len-slice-le s (b - len_utf8 c)))

len-cut-le : (s : String) → len (cut s) ≤ max_name
unfolding cut
len-cut-le s = ground (arith, len-slice-le s max_name, len-slice-le s (len s))

some_inv : {a b : String} → some a ≡ some b → a ≡ b
some_inv h = cc

-- Whatever the elements are, a rendered resource name is at most 253 bytes long.
pub render_resource_name-le :
    (prefix : Bool) (elems : List String) {name : String}
    → render_resource_name prefix elems ≡ some name
    → len name ≤ max_name
unfolding render_resource_name
render_resource_name-le prefix [] h = ground arith
render_resource_name-le prefix (e ∷ elems) {name} h =
    subst (λ n. len n ≤ max_name) (some_inv h) (len-cut-le _)
