-- ===== src/Utils/Mount/Distinct.antt =====
-- pkg/utils/helpers.go: RenderMountPoint at two indices.
use Prim.Native.String.append
use text.Mathlib.TextLemmas.{
  append_cancel_left, append_cancel_right, append_assoc, cons-append, length-append, length-cons,
}
use Prim.Native.String.{count}
use mathlib.Core.Path.{subst}
use discoblock.Base.{
  ap, sym, ◌∙◌, Option-cases, ◌+◌, Char, String, ◌⧺◌, ◌≡◌, ◌≢◌, ◌⊎◌, refl, true, false, none, some,
  arith, str_eq, eq_iff, Bool-cases, inl, inr,
}
use discoblock.Base.Int.{ℤ, IsInt}
use discoblock.Text.Decimal.{format_int}
use discoblock.Text.Decimal.RoundTrip.{atoi-format_int}
use discoblock.Utils.Mount.{percents, split_verb, contains_verb, is_zero, render_mount_point}

format_int_injective : (i j : ℤ) → IsInt i → IsInt j → format_int i ≡ format_int j → i ≡ j
format_int_injective i j hi hj e = cc (atoi-format_int i hi, atoi-format_int j hj)

-- A text without `%` in front of `-%d`
split_verb-append : (p : String) → percents p ≡ 0 → split_verb (p ⧺ "-%d") ≡ some (p ⧺ "-", "")
unfolding split_verb percents
split_verb-append String.[] h = refl
split_verb-append (String.◌∷◌ c s) h =
    rw (cons-append c s "-%d", cons-append c s "-") (ground (arith, split_verb-append s))

percents-append : (p : String) → percents (p ⧺ "-%d") ≡ percents p + 1
unfolding percents
percents-append String.[] = refl
percents-append (String.◌∷◌ c s) = rw (cons-append c s "-%d") (ground (arith, percents-append s))

split_verb-none : (p : String) → percents p ≡ 0 → split_verb p ≡ none
unfolding split_verb percents
split_verb-none String.[] h = refl
split_verb-none (String.◌∷◌ c s) h = ground (arith, split_verb-none s)

-- The only `%` of the pattern, if it has one, begins a `%d`.
abbrev pub IsSimple : String → Type 0
IsSimple p = (percents p ≡ 0) ⊎ ((percents p ≡ 1) × (contains_verb p ≡ true))

record Cut (p before after : String) : Type 0 where
  single : percents p ≡ 1
  parts : split_verb p ≡ some (before, after)

-- A pattern with one `%d` prints the index there.
render_verb :
    (other : String → ℤ → String) (p name before after : String) (i : ℤ)
    → Cut p before after
    → str_eq p "" ≡ false
    → render_mount_point other p name i ≡ before ⧺ format_int i ⧺ after
unfolding render_mount_point
render_verb other p name before after i c h = ground arith

render_zero :
    (other : String → ℤ → String) (p name : String) (i : ℤ)
    → percents p ≡ 0
    → is_zero i ≡ true
    → str_eq p "" ≡ false
    → render_mount_point other p name i ≡ p
unfolding render_mount_point
render_zero other p name i h z e = rw (e, z, split_verb-none p h) refl

render_added :
    (other : String → ℤ → String) (p name : String) (i : ℤ)
    → percents p ≡ 0
    → is_zero i ≡ false
    → str_eq p "" ≡ false
    → render_mount_point other p name i ≡ (p ⧺ "-") ⧺ format_int i ⧺ ""
unfolding render_mount_point
render_added other p name i h z e =
    ground (arith, split_verb-append p h, percents-append p, split_verb-none p h)

append-ne_self : (p : String) (c : Char) (t : String) → p ≢ p ⧺ String.◌∷◌ c t
append-ne_self p c t e =
    omega (arith, ap count e, length-append p (String.◌∷◌ c t), length-cons c t)

dash : (p t : String) → (p ⧺ "-") ⧺ t ≡ p ⧺ String.◌∷◌ "-" t
dash p t =
    append_assoc p "-" t
    ∙ ap (λ u. p ⧺ u) (append.cons "-" "" t ∙ ap (String.◌∷◌ "-") (append.nil t))

is_zero-eq : (i j : ℤ) → is_zero i ≡ true → is_zero j ≡ true → i ≡ j
is_zero-eq i j hi hj = ground arith

module _ (other : String → ℤ → String) (name : String) (i j : ℤ) (hi : IsInt i) (hj : IsInt j) where
  empty_distinct : render_mount_point other "" name i ≡ render_mount_point other "" name j → i ≡ j
  unfolding render_mount_point
  empty_distinct e = format_int_injective i j hi hj (
      append_cancel_left "-" _ _
        (append_cancel_left name _ _ (append_cancel_left "/media/discoblocks/" _ _ e)))

  verb_distinct :
      (p before after : String)
      → Cut p before after
      → str_eq p "" ≡ false
      → render_mount_point other p name i ≡ render_mount_point other p name j
      → i ≡ j
  verb_distinct p before after c q e = format_int_injective i j hi hj (
      append_cancel_right _ _ after (
        append_cancel_left before _ _ (
          sym (render_verb other p name before after i c q)
          ∙ e
          ∙ render_verb other p name before after j c q)))

  added_distinct :
      (p : String)
      → percents p ≡ 0
      → str_eq p "" ≡ false
      → render_mount_point other p name i ≡ render_mount_point other p name j
      → i ≡ j
  added_distinct p h q e = elim (Bool-cases (is_zero i)) [
    | inl zi ↦ elim (Bool-cases (is_zero j)) [
      | inl zj ↦ is_zero-eq i j zi zj
      | inr nj ↦ absurd (
          append-ne_self p _ _ (
            sym (render_zero other p name i h zi q)
            ∙ e
            ∙ render_added other p name j h nj q
            ∙ dash p _))
    ]
    | inr ni ↦ elim (Bool-cases (is_zero j)) [
      | inl zj ↦ absurd (
          append-ne_self p _ _ (
            sym (render_zero other p name j h zj q)
            ∙ sym e
            ∙ render_added other p name i h ni q
            ∙ dash p _))
      | inr nj ↦ format_int_injective i j hi hj (
          append_cancel_right _ _ "" (
            append_cancel_left (p ⧺ "-") _ _
              (sym (render_added other p name i h ni q) ∙ e ∙ render_added other p name j h nj q)))
    ]
  ]

contains-Cut :
    (p : String)
    → percents p ≡ 1
    → contains_verb p ≡ true
    → (before : String) × (after : String) × Cut p before after
unfolding contains_verb
contains-Cut p h e = elim (Option-cases (split_verb p)) [
  | inl n ↦ absurd (ground arith)
  | inr ((b, a), q) ↦ (b, a, record { single = h; parts = q })
]

render_mount_point_injective :
    (other : String → ℤ → String) (pattern name : String) (i j : ℤ)
    → IsSimple pattern
    → IsInt i
    → IsInt j
    → render_mount_point other pattern name i ≡ render_mount_point other pattern name j
    → i ≡ j
render_mount_point_injective other pattern name i j simple hi hj e =
    elim (Bool-cases (str_eq pattern "")) [
      | inl q ↦ empty_distinct other name i j hi hj (
          subst (λ p. render_mount_point other p name i ≡ render_mount_point other p name j)
            ((eq_iff pattern "").0 q) e)
      | inr q ↦ elim simple [
        | inl h ↦ added_distinct other name i j hi hj pattern h q e
        | inr (h, c) ↦
            let (before, after, cut) = contains-Cut pattern h c in
            verb_distinct other name i j hi hj pattern before after cut q e
      ]
    ]

-- Under a pattern that is empty, has no `%`, or has one `%` that begins a `%d`, two disks with
-- different indices are never mounted at one place.
pub render_mount_point_distinct :
    (other : String → ℤ → String) (pattern name : String) (i j : ℤ)
    → IsSimple pattern
    → IsInt i
    → IsInt j
    → i ≢ j
    → render_mount_point other pattern name i ≢ render_mount_point other pattern name j
render_mount_point_distinct other pattern name i j simple hi hj ne e =
    ne (render_mount_point_injective other pattern name i j simple hi hj e)
