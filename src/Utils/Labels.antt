-- ===== src/Utils/Labels.antt =====
-- pkg/utils/helpers.go: IsContainsAll.
use discoblock.Base.{
  ℕ, ◌+◌, ◌≤◌, String, ◌≡◌, ◌↔◌, refl, Bool, true, false, [], ◌∷◌, arith, ◌==◌, str_eq, eq_iff,
  if◌then◌else◌, length, All, Map, label,
}

-- the loop over `b`, with its counter
count_matches : Map String → Map String → ℕ → ℕ
count_matches a [] n = n
count_matches a ((key, value) ∷ b) n =
    count_matches a b (if str_eq (label a key) value then n + 1 else n)

unfoldable pub is_contains_all : Map String → Map String → Bool
unfolding count_matches
is_contains_all a b = count_matches a b 0 == length b

-- Every label of `b` reads the same in `a`, where a missing label reads as the empty text.
abbrev pub Covers : Map String → Map String → Type 0
Covers a b = All (λ (kv : String × String). label a kv.0 ≡ kv.1) b

count_matches-le : (a b : Map String) (n : ℕ) → count_matches a b n ≤ n + length b
unfolding count_matches
count_matches-le a [] n = omega arith
count_matches-le a ((key, value) ∷ b) n =
    ground (arith, count_matches-le a b n, count_matches-le a b (n + 1))

count_all : (a b : Map String) (n : ℕ) → count_matches a b n ≡ n + length b → Covers a b
unfolding count_matches
count_all a [] n h = tt
count_all a ((key, value) ∷ b) n h =
    ground (arith, eq_iff (label a key) value, count_matches-le a b n, count_all a b (n + 1))

all_count : (a b : Map String) (n : ℕ) → Covers a b → count_matches a b n ≡ n + length b
unfolding count_matches
all_count a [] n h = omega arith
all_count a ((key, value) ∷ b) n h =
    ground (arith, eq_iff (label a key) value, all_count a b (n + 1))

-- `IsContainsAll(a, b)` holds exactly when every label of `b` reads the same in `a`.
pub is_contains_all_iff : (a b : Map String) → (is_contains_all a b ≡ true) ↔ Covers a b
unfolding is_contains_all
is_contains_all_iff a b =
    (λ h. count_all a b 0 (ground arith), λ h. ground (arith, all_count a b 0))

is_contains_all_runs :
    (is_contains_all (("app", "nginx") ∷ ("tier", "web") ∷ []) (("app", "nginx") ∷ []) ≡ true)
    × (is_contains_all (("app", "nginx") ∷ []) (("tier", "web") ∷ []) ≡ false)
unfolding is_contains_all label
is_contains_all_runs = (refl, refl)
