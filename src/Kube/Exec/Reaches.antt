-- ===== src/Kube/Exec/Reaches.antt =====
-- What an action leads to: `P` holds of its history, or it panics, which needs `X`.
use discoblock.Base.{List, ◌⊎◌, inl, inr, sym, ◌++◌}
use mathlib.Core.Path.{subst}
use discoblock.Kube.Exec.{Flow, next, done, panic, Exec, continue, ◌>>=◌, detached, settle}
use discoblock.Kube.Exec.Returns.{Returns, Ends, Any, Never}
use discoblock.Kube.Exec.Emits.{Emits, Added}

abbrev Panicked : {R A : Type 0} → Type 0 → Flow R A → Type 0
Panicked X (next a) = ⊥
Panicked X (done r) = ⊥
Panicked X panic = X

pub record Reaches {C R A : Type 0} (X : Type 0) (P : List C → Type 0) (m : Exec C R A)
    : Type 0 where
  pub at : (h : List C) → P (m h).1 ⊎ Panicked X (m h).0

-- Further calls do not undo it.
pub record Lasting {C : Type 0} (P : List C → Type 0) : Type 0 where
  pub add : (made h : List C) → P h → P (made ++ h)

module _ {C : Type 0} {Q : C → Type 0} (P : List C → Type 0) where
  pub lasting : Lasting P → (h later : List C) → Added Q h later → P h → P later
  lasting last h later (made, same, all) p = subst P (sym same) (last.add made h p)

module _ {C R A : Type 0} {X : Type 0} {P : List C → Type 0} where
  -- It has happened whatever the end is.
  pub Reaches-surely : (m : Exec C R A) → ((h : List C) → P (m h).1) → Reaches X P m
  Reaches-surely m p = record { at = λ h. inl (p h) }

module _ {R A : Type 0} {X Y : Type 0} where
  Panicked-implies : (X → Y) → (r : Flow R A) → Panicked X r → Panicked Y r
  Panicked-implies f (next a) e = e
  Panicked-implies f (done r) e = e
  Panicked-implies f panic e = f e

module _ {C R A : Type 0} {X Y : Type 0} {P : List C → Type 0} where
  -- What a panic shows, told in another way.
  pub Reaches-panics : (X → Y) → (m : Exec C R A) → Reaches X P m → Reaches Y P m
  Reaches-panics f m k = record {
    at = λ h. elim (k.at h) [ inl p ↦ inl p | inr e ↦ inr (Panicked-implies f (m h).0 e) ];
  }

module _ {C R A B : Type 0} {P : List C → Type 0} (Y : Type 0) where
  first_reached :
      (r : Flow R A) (f : A → Exec C R B) (h : List C)
      → Lasting P
      → P h ⊎ Panicked Y r
      → ((a : A) → Emits Any (f a))
      → P (continue r f h).1 ⊎ Panicked Y (continue r f h).0
  first_reached (next a) f h last (inl p) emits =
      inl (lasting P last h (f a h).1 ((emits a).at h) p)
  first_reached (next a) f h last (inr e) emits = elim e [ ]
  first_reached (done r) f h last p emits = p
  first_reached panic f h last p emits = p

module _ {C R A B : Type 0} {X : Type 0} {P : List C → Type 0} where
  pub Reaches-first :
      (m : Exec C R A) (f : A → Exec C R B)
      → Lasting P
      → Reaches X P m
      → ((a : A) → Emits Any (f a))
      → Reaches X P (m >>= f)
  unfolding ◌>>=◌
  Reaches-first m f last km emits = record {
    at = λ h. let (r, h') = m h in first_reached X r f h' last (km.at h) emits;
  }

  rest_reached :
      (S : A → Type 0) (r : Flow R A) (f : A → Exec C R B) (h : List C)
      → Ends X Never S r
      → ((a : A) → S a → Reaches X P (f a))
      → P (continue r f h).1 ⊎ Panicked X (continue r f h).0
  rest_reached S (next a) f h s kf = (kf a s).at h
  rest_reached S (done r) f h s kf = elim s [ ]
  rest_reached S panic f h s kf = inr s

  -- The first action does not return, and the rest may use what it promises of its value.
  pub Reaches-then :
      (S : A → Type 0) (m : Exec C R A) (f : A → Exec C R B)
      → Returns X Never S m
      → ((a : A) → S a → Reaches X P (f a))
      → Reaches X P (m >>= f)
  unfolding ◌>>=◌
  Reaches-then S m f km kf = record {
    at = λ h. let (r, h') = m h in rest_reached S r f h' (km.at h) kf;
  }

module _ {R A : Type 0} (Q X : Type 0) where
  settle_reached :
      (P : Type 0) (r : Flow R A) → P ⊎ Panicked X r → P ⊎ Panicked X (settle {Q = Q} r)
  settle_reached P (next a) e = e
  settle_reached P (done r) e = e
  settle_reached P panic e = e

  settle-Ends :
      (Y : R → Type 0) (S : A → Type 0) (r : Flow R A)
      → Ends X Y S r
      → Ends X Never Any (settle {Q = Q} r)
  settle-Ends Y S (next a) e = tt
  settle-Ends Y S (done r) e = tt
  settle-Ends Y S panic e = e

module _ {C R Q A : Type 0} {X : Type 0} where
  pub Reaches-detached :
      {P : List C → Type 0} (m : Exec C R A) → Reaches X P m → Reaches X P (detached {Q = Q} m)
  unfolding detached
  Reaches-detached {P} m km = record { at = λ h. settle_reached Q X (P (m h).1) (m h).0 (km.at h) }

  -- A goroutine never returns for the one that started it.
  pub Returns-detached :
      (Y : R → Type 0) (S : A → Type 0) (m : Exec C R A)
      → Returns X Y S m
      → Returns X Never Any (detached {Q = Q} m)
  unfolding detached
  Returns-detached Y S m km = record { at = λ h. settle-Ends Q X Y S (m h).0 (km.at h) }
