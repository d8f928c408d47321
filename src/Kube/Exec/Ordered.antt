-- ===== src/Kube/Exec/Ordered.antt =====
-- What must come before a call: `P c h` says what the history `h` must hold when `c` is made, and
-- `Good c h` that `c` succeeds when it is made after `h`. An action leads from the calls that have
-- succeeded to more of them, and keeps that order.
use discoblock.Base.{
  List, [], ◌∷◌, Bool, true, false, ◌≡◌, refl, ◌⊎◌, inl, inr, All, All-map, if◌then◌else◌,
}
use discoblock.Kube.Exec.{
  Result, ok, err, Flow, next, done, panic, Exec, pure, return, crash, call, catch, attempt,
  continue, ◌>>=◌,
}

-- The call stands in the history, and it succeeded.
abbrev pub Happened : {C : Type 0} → (C → List C → Type 0) → C → List C → Type 0
Happened Good c [] = ⊥
Happened Good c (d ∷ h) = ((d ≡ c) × Good c h) ⊎ Happened Good c h

abbrev pub AllHappened : {C : Type 0} → (C → List C → Type 0) → List C → List C → Type 0
AllHappened Good cs h = All (λ c. Happened Good c h) cs

abbrev pub InOrder : {C : Type 0} → (C → List C → Type 0) → List C → Type 0
InOrder P [] = Unit
InOrder P (c ∷ h) = P c h × InOrder P h

abbrev Reached : {C R A : Type 0} → (C → List C → Type 0) → List C → Flow R A → List C → Type 0
Reached Good post (next a) h = AllHappened Good post h
Reached Good post _ h = Unit

pub record Leads {C R A : Type 0} (Good P : C → List C → Type 0) (pre post : List C)
    (m : Exec C R A) : Type 0 where
  pub at :
      (h : List C)
      → AllHappened Good pre h
      → InOrder P h
      → InOrder P (m h).1 × Reached Good post (m h).0 (m h).1

module _ {C : Type 0} (Good : C → List C → Type 0) (c : C) (h : List C) where
  later : (cs : List C) → AllHappened Good cs h → AllHappened Good cs (c ∷ h)
  later cs k = All-map (λ _ x. inr x) cs k

module _ {C R A : Type 0} {Good P : C → List C → Type 0} where
  pub Leads-pure : {pre : List C} (a : A) → Leads Good P pre pre (pure {C = C} {R = R} a)
  unfolding pure
  Leads-pure a = record { at = λ h k o. (o, k) }

  pub Leads-return :
      {pre post : List C} (r : R) → Leads Good P pre post (return {C = C} {R = R} {A = A} r)
  unfolding return
  Leads-return r = record { at = λ h k o. (o, tt) }

  pub Leads-crash : {pre post : List C} → Leads Good P pre post (crash {C = C} {R = R} {A = A})
  unfolding crash
  Leads-crash = record { at = λ h k o. (o, tt) }

  pub Leads-call :
      {pre : List C} (c : C) (f : List C → A)
      → ((h : List C) → AllHappened Good pre h → P c h)
      → ((h : List C) → Good c h)
      → Leads Good P pre (c ∷ pre) (call {C = C} {R = R} c f)
  unfolding call
  Leads-call {pre} c f p good = record {
    at = λ h k o. ((p h k, o), (inl (refl, good h), later Good c h pre k));
  }

  -- The answer is not looked at.
  pub Leads-told :
      {pre : List C} (c : C) (f : List C → A)
      → ((h : List C) → AllHappened Good pre h → P c h)
      → Leads Good P pre pre (call {C = C} {R = R} c f)
  unfolding call
  Leads-told {pre} c f p = record { at = λ h k o. ((p h k, o), later Good c h pre k) }

  pub Leads-if :
      {pre post : List C} (b : Bool) (m n : Exec C R A)
      → Leads Good P pre post m
      → Leads Good P pre post n
      → Leads Good P pre post (if b then m else n)
  Leads-if true m n km kn = km
  Leads-if false m n km kn = kn

module _ {C R A B : Type 0} {Good P : C → List C → Type 0} where
  Leads-continue :
      {mid post : List C} (r : Flow R A) (f : A → Exec C R B) (h : List C)
      → Reached Good mid r h
      → InOrder P h
      → ((a : A) → Leads Good P mid post (f a))
      → InOrder P (continue r f h).1 × Reached Good post (continue r f h).0 (continue r f h).1
  Leads-continue (next a) f h k o kf = (kf a).at h k o
  Leads-continue (done r) f h k o kf = (o, tt)
  Leads-continue panic f h k o kf = (o, tt)

  pub Leads-bind :
      {pre mid post : List C} (m : Exec C R A) (f : A → Exec C R B)
      → Leads Good P pre mid m
      → ((a : A) → Leads Good P mid post (f a))
      → Leads Good P pre post (m >>= f)
  unfolding ◌>>=◌
  Leads-bind m f km kf = record {
    at = λ h k o. let (r, h') = m h in Leads-continue r f h' (km.at h k o).1 (km.at h k o).0 kf;
  }

forget :
    {C R A : Type 0} (Good : C → List C → Type 0) (c : C) (post : List C) (r : Flow R A)
    (h : List C)
    → Reached Good (c ∷ post) r h
    → Reached Good post r h
forget Good c post (next a) h x = x.1
forget Good c post (done r) h x = tt
forget Good c post panic h x = tt

forget_all :
    {C R A : Type 0} (Good : C → List C → Type 0) (post : List C) (r : Flow R A) (h : List C)
    → Reached Good post r h
    → Reached Good [] r h
forget_all Good post (next a) h x = tt
forget_all Good post (done r) h x = tt
forget_all Good post panic h x = tt

module _ {C R A : Type 0} {Good P : C → List C → Type 0} where
  -- The latest call is remembered no longer.
  pub Leads-forget :
      {pre post : List C} (c : C) (m : Exec C R A)
      → Leads Good P pre (c ∷ post) m
      → Leads Good P pre post m
  Leads-forget {pre} {post} c m k = record {
    at = λ h a o. ((k.at h a o).0, forget Good c post (m h).0 (m h).1 (k.at h a o).1);
  }

  pub Leads-forget_all :
      {pre post : List C} (m : Exec C R A) → Leads Good P pre post m → Leads Good P pre [] m
  Leads-forget_all {pre} {post} m k = record {
    at = λ h a o. ((k.at h a o).0, forget_all Good post (m h).0 (m h).1 (k.at h a o).1);
  }

module _ {C R A E : Type 0} {Good P : C → List C → Type 0} where
  caught :
      {pre : List C} (c : C) (r : Result E A) (handler : E → Exec C R A) (h : List C)
      → AllHappened Good pre h
      → P c h
      → InOrder P h
      → ((a : A) → r ≡ ok a → Good c h)
      → ((e : E) → Leads Good P pre (c ∷ pre) (handler e))
      → InOrder P (catch r handler (c ∷ h)).1
        × Reached Good (c ∷ pre) (catch r handler (c ∷ h)).0 (catch r handler (c ∷ h)).1
  unfolding catch pure
  caught {pre} c (ok a) handler h k p o good handled =
      ((p, o), (inl (refl, good a refl), later Good c h pre k))
  caught {pre} c (err e) handler h k p o good handled =
      (handled e).at (c ∷ h) (later Good c h pre k) (p, o)

  pub Leads-attempt :
      {pre : List C} (c : C) (f : List C → Result E A) (handler : E → Exec C R A)
      → ((h : List C) → AllHappened Good pre h → P c h)
      → ((h : List C) (a : A) → f h ≡ ok a → Good c h)
      → ((e : E) → Leads Good P pre (c ∷ pre) (handler e))
      → Leads Good P pre (c ∷ pre) (attempt c f handler)
  unfolding attempt call ◌>>=◌
  Leads-attempt c f handler p good handled = record {
    at = λ h k o. caught c (f h) handler h k (p h k) o (good h) handled;
  }

module _ {C R A B E : Type 0} {Good P : C → List C → Type 0} where
  -- The rest of the block may use what the value is.
  pub Leads-known :
      {pre post : List C} (r : Result E A) (g : E → R) (f : A → Exec C R B)
      → ((a : A) → r ≡ ok a → Leads Good P pre post (f a))
      → Leads Good P pre post (catch r (λ e. return (g e)) >>= f)
  unfolding ◌>>=◌ catch
  Leads-known (ok a) g f k = record { at = λ h a' o. (k a refl).at h a' o }
  Leads-known (err e) g f k = record { at = λ h a' o. (o, tt) }
