-- ===== src/Kube/Exec/Emits.antt =====
-- Every call that an action makes satisfies a predicate, one rule for each way to build an action.
use discoblock.Base.{
  List, [], ◌∷◌, Option, none, some, Bool, true, false, ◌≡◌, refl, sym, ap, ◌∙◌, ◌++◌, All, All-map,
  All-append, if◌then◌else◌,
}
use mathlib.Core.List.{append_assoc}
use discoblock.Kube.Exec.Returns.{Returns, Ends}
use discoblock.Kube.Exec.{
  Result, ok, err, Flow, next, done, panic, Exec, pure, return, crash, call, observe, catch,
  require, attempt, continue, ◌>>=◌, nested, detached, for_each,
}

-- The later history is the earlier one with calls of that kind before it.
abbrev pub Added : {C : Type 0} → (C → Type 0) → List C → List C → Type 0
Added {C} P h later = (made : List C) × (later ≡ made ++ h) × All P made

pub record Emits {C R A : Type 0} (P : C → Type 0) (m : Exec C R A) : Type 0 where
  pub at : (h : List C) → Added P h (m h).1

module _ {C : Type 0} {P : C → Type 0} where
  Added-refl : (h : List C) → Added P h h
  Added-refl h = ([], refl, tt)

  Added-trans : {h k l : List C} → Added P h k → Added P k l → Added P h l
  Added-trans {h} (xs, e, p) (ys, f, q) =
      (ys ++ xs, f ∙ ap (λ t. ys ++ t) e ∙ sym (append_assoc ys xs h), All-append P ys xs q p)

module _ {C R A : Type 0} {P : C → Type 0} where
  pub Emits-pure : (a : A) → Emits P (pure {C = C} {R = R} a)
  unfolding pure
  Emits-pure a = record { at = Added-refl }

  pub Emits-return : (r : R) → Emits P (return {C = C} {R = R} {A = A} r)
  unfolding return
  Emits-return r = record { at = Added-refl }

  pub Emits-crash : Emits P (crash {C = C} {R = R} {A = A})
  unfolding crash
  Emits-crash = record { at = Added-refl }

  pub Emits-call : (c : C) (f : List C → A) → P c → Emits P (call {C = C} {R = R} c f)
  unfolding call
  Emits-call c f pc = record { at = λ h. (c ∷ [], refl, (pc, tt)) }

  pub Emits-observe : (f : List C → A) → Emits P (observe {C = C} {R = R} f)
  unfolding observe
  Emits-observe f = record { at = Added-refl }

  pub Emits-catch :
      {E : Type 0} (r : Result E A) (handler : E → Exec C R A)
      → ((e : E) → Emits P (handler e))
      → Emits P (catch r handler)
  unfolding catch
  Emits-catch (ok a) handler k = Emits-pure a
  Emits-catch (err e) handler k = k e

  pub Emits-require :
      (o : Option A) (missing : Exec C R A) → Emits P missing → Emits P (require o missing)
  unfolding require
  Emits-require none missing k = k
  Emits-require (some a) missing k = Emits-pure a

  pub Emits-if :
      (b : Bool) (m n : Exec C R A)
      → (b ≡ true → Emits P m)
      → (b ≡ false → Emits P n)
      → Emits P (if b then m else n)
  Emits-if true m n km kn = km refl
  Emits-if false m n km kn = kn refl

module _ {C R A B : Type 0} {P : C → Type 0} where
  Emits-continue :
      (r : Flow R A) (f : A → Exec C R B) (h : List C)
      → ((a : A) → Emits P (f a))
      → Added P h (continue r f h).1
  Emits-continue (next a) f h kf = (kf a).at h
  Emits-continue (done r) f h kf = Added-refl h
  Emits-continue panic f h kf = Added-refl h

  pub Emits-bind :
      (m : Exec C R A) (f : A → Exec C R B)
      → Emits P m
      → ((a : A) → Emits P (f a))
      → Emits P (m >>= f)
  unfolding ◌>>=◌
  Emits-bind m f km kf = record {
    at = λ h. let (r, h') = m h in Added-trans (km.at h) (Emits-continue r f h' kf);
  }

  Emits-ended :
      (X : Type 0) (Y : R → Type 0) {S : A → Type 0} (r : Flow R A) (f : A → Exec C R B)
      (h : List C)
      → Ends X Y S r
      → ((a : A) → S a → Emits P (f a))
      → Added P h (continue r f h).1
  Emits-ended X Y (next a) f h s kf = (kf a s).at h
  Emits-ended X Y (done r) f h s kf = Added-refl h
  Emits-ended X Y panic f h s kf = Added-refl h

  -- The rest may use what the first action promises of its value.
  pub Emits-then :
      (X : Type 0) (Y : R → Type 0) (S : A → Type 0) (m : Exec C R A) (f : A → Exec C R B)
      → Returns X Y S m
      → Emits P m
      → ((a : A) → S a → Emits P (f a))
      → Emits P (m >>= f)
  unfolding ◌>>=◌
  Emits-then X Y S m f ks km kf = record {
    at = λ h. let (r, h') = m h in Added-trans (km.at h) (Emits-ended X Y r f h' (ks.at h) kf);
  }

module _ {C R A : Type 0} {P Q : C → Type 0} where
  pub Emits-implies : ((c : C) → P c → Q c) → (m : Exec C R A) → Emits P m → Emits Q m
  Emits-implies f m k = record {
    at = λ h. let (made, e, p) = k.at h in (made, e, All-map f made p);
  }

module _ {C R A E : Type 0} {P : C → Type 0} where
  pub Emits-attempt :
      (c : C) (f : List C → Result E A) (handler : E → Exec C R A)
      → P c
      → ((e : E) → Emits P (handler e))
      → Emits P (attempt c f handler)
  unfolding attempt
  Emits-attempt c f handler pc k = Emits-bind _ _ (Emits-call c f pc) (λ r. Emits-catch r handler k)

module _ {C R A B E : Type 0} {P : C → Type 0} where
  catch_bind :
      (r : Result E A) (g : E → R) (k : A → Exec C R B) (h : List C)
      → ((a : A) → r ≡ ok a → Emits P (k a))
      → Added P h ((catch r (λ e. return (g e)) >>= k) h).1
  unfolding ◌>>=◌
  catch_bind (ok a) g k h ka = (ka a refl).at h
  catch_bind (err e) g k h ka = Added-refl h

  -- The rest of the block may use what the server answered.
  pub Emits-answer :
      (c : C) (f : List C → Result E A) (g : E → R) (k : A → Exec C R B)
      → P c
      → ((h : List C) (a : A) → f h ≡ ok a → Emits P (k a))
      → Emits P (attempt c f (λ e. return (g e)) >>= k)
  unfolding attempt
  Emits-answer c f g k pc ka = record {
    at = λ h.
        Added-trans {k = c ∷ h} (c ∷ [], refl, (pc, tt))
          (catch_bind (f h) g k (c ∷ h) (λ a. ka h a));
  }

  -- The call is the first of what follows.
  pub Added-attempt :
      (c : C) (f : List C → Result E A) (handler : E → Exec C R A) (k : A → Exec C R B) (h : List C)
      → ((e : E) → Emits P (handler e))
      → ((a : A) → Emits P (k a))
      → Added P (c ∷ h) ((attempt c f handler >>= k) h).1
  unfolding attempt
  Added-attempt c f handler k h handled rest =
      (Emits-bind _ k (Emits-catch (f h) handler handled) rest).at (c ∷ h)

module _ {C R Q : Type 0} {P : C → Type 0} where
  pub Emits-nested : (m : Exec C R R) → Emits P m → Emits P (nested {Q = Q} m)
  unfolding nested
  Emits-nested m km = record { at = λ h. km.at h }

module _ {C R Q A : Type 0} {P : C → Type 0} where
  pub Emits-detached : (m : Exec C R A) → Emits P m → Emits P (detached {Q = Q} m)
  unfolding detached
  Emits-detached m km = record { at = λ h. km.at h }

module _ {C R A : Type 0} {P : C → Type 0} where
  pub Emits-for_each :
      (xs : List A) (body : A → Exec C R (Unit {0}))
      → ((x : A) → Emits P (body x))
      → Emits P (for_each xs body)
  unfolding for_each
  Emits-for_each [] body k = Emits-pure tt
  Emits-for_each (x ∷ xs) body k = Emits-bind _ _ (k x) (λ _. Emits-for_each xs body k)

module _ {C R A : Type 0} {P : C → Type 0} where
  -- Each round may use a fact about its element.
  pub Emits-each :
      (Q : A → Type 0) (xs : List A) (body : A → Exec C R (Unit {0}))
      → All Q xs
      → ((x : A) → Q x → Emits P (body x))
      → Emits P (for_each xs body)
  unfolding for_each
  Emits-each Q [] body qs k = Emits-pure tt
  Emits-each Q (x ∷ xs) body qs k = Emits-bind _ _ (k x qs.0) (λ _. Emits-each Q xs body qs.1 k)

pub ruleset emit_rules = (
  Emits-pure, Emits-return, Emits-crash, Emits-observe, Emits-catch, Emits-require, Emits-if,
  Emits-bind, Emits-nested, Emits-for_each, Emits-call, Emits-attempt,
)
