-- ===== src/Kube/Exec/After.antt =====
-- What an action comes to when it starts at a time or later, under a clock that never goes back: its end
-- as in Returns, and it ends no earlier than it began.
use discoblock.Base.{
  ℕ, ◌+◌, ◌≤◌, List, ◌∷◌, Option, none, some, Bool, true, false, ◌≡◌, refl, arith, if◌then◌else◌,
}
use discoblock.Kube.Exec.{
  Result, ok, err, Flow, next, done, panic, Exec, pure, return, crash, call, observe, catch,
  require, attempt, continue, ◌>>=◌,
}
use discoblock.Kube.Exec.Returns.{Ends, Any}

-- No call turns the clock back.
pub record Steady {C : Type 0} (now : List C → ℕ) : Type 0 where
  pub step : (c : C) (h : List C) → now h ≤ now (c ∷ h)

pub record After {C R A : Type 0} (now : List C → ℕ) (t : ℕ) (X : Type 0) (P : R → Type 0)
    (Q : A → Type 0) (m : Exec C R A) : Type 0 where
  pub at : (h : List C) → t ≤ now h → Ends X P Q (m h).0 × (t ≤ now (m h).1)

module _ {C R A : Type 0} {now : List C → ℕ} {t : ℕ} {X : Type 0} {P : R → Type 0}
    {Q : A → Type 0} where
  pub After-pure : (a : A) → Q a → After now t X P Q (pure {C = C} {R = R} a)
  unfolding pure
  After-pure a q = record { at = λ h k. (q, k) }

  pub After-return : (r : R) → P r → After now t X P Q (return {C = C} {R = R} {A = A} r)
  unfolding return
  After-return r p = record { at = λ h k. (p, k) }

  pub After-crash : X → After now t X P Q (crash {C = C} {R = R} {A = A})
  unfolding crash
  After-crash x = record { at = λ h k. (x, k) }

  pub After-if :
      (b : Bool) (m n : Exec C R A)
      → (b ≡ true → After now t X P Q m)
      → (b ≡ false → After now t X P Q n)
      → After now t X P Q (if b then m else n)
  After-if true m n km kn = km refl
  After-if false m n km kn = kn refl

module _ {C R A : Type 0} {now : List C → ℕ} {t : ℕ} {X : Type 0} {P : R → Type 0} where
  pub After-told :
      (c : C) (f : List C → A)
      → Steady now
      → After now t X P (λ a. (h : List C) × (f h ≡ a)) (call {C = C} {R = R} c f)
  unfolding call
  After-told c f steady = record { at = λ h k. ((h, refl), omega (arith, k, steady.step c h)) }

  pub After-call :
      (c : C) (f : List C → A) → Steady now → After now t X P Any (call {C = C} {R = R} c f)
  unfolding call
  After-call c f steady = record { at = λ h k. (tt, omega (arith, k, steady.step c h)) }

  pub After-observe : (f : List C → A) → After now t X P Any (observe {C = C} {R = R} f)
  unfolding observe
  After-observe f = record { at = λ h k. (tt, k) }

  pub After-catch :
      {E : Type 0} (r : Result E A) (handler : E → Exec C R A)
      → ((e : E) → After now t X P Any (handler e))
      → After now t X P Any (catch r handler)
  unfolding catch
  After-catch (ok a) handler k = After-pure a tt
  After-catch (err e) handler k = k e

  pub After-require :
      (o : Option A) (missing : Exec C R A)
      → After now t X P Any missing
      → After now t X P Any (require o missing)
  unfolding require
  After-require none missing k = k
  After-require (some a) missing k = After-pure a tt

module _ {C R A B : Type 0} {now : List C → ℕ} {t : ℕ} {X : Type 0} {P : R → Type 0}
    {Q : B → Type 0} where
  After-continue :
      {S : A → Type 0} (r : Flow R A) (f : A → Exec C R B) (h : List C)
      → Ends X P S r
      → t ≤ now h
      → ((a : A) → S a → After now t X P Q (f a))
      → Ends X P Q (continue r f h).0 × (t ≤ now (continue r f h).1)
  After-continue (next a) f h e k kf = (kf a e).at h k
  After-continue (done r) f h e k kf = (e, k)
  After-continue panic f h e k kf = (e, k)

  pub After-then :
      (S : A → Type 0) (m : Exec C R A) (f : A → Exec C R B)
      → After now t X P S m
      → ((a : A) → S a → After now t X P Q (f a))
      → After now t X P Q (m >>= f)
  unfolding ◌>>=◌
  After-then S m f km kf = record {
    at = λ h k. let (r, h') = m h in After-continue {S = S} r f h' (km.at h k).0 (km.at h k).1 kf;
  }

  pub After-bind :
      (m : Exec C R A) (f : A → Exec C R B)
      → After now t X P Any m
      → ((a : A) → After now t X P Q (f a))
      → After now t X P Q (m >>= f)
  After-bind m f km kf = After-then Any m f km (λ a _. kf a)

module _ {C R B : Type 0} {now : List C → ℕ} {X : Type 0} {P : R → Type 0} {Q : B → Type 0} where
  -- The rest may use that it starts at the time that was read.
  pub After-now :
      (t : ℕ) (f : ℕ → Exec C R B)
      → ((start : ℕ) → t ≤ start → After now start X P Q (f start))
      → After now t X P Q (observe now >>= f)
  unfolding ◌>>=◌ observe
  After-now t f kf = record {
    at = λ h k. let (e, late) = (kf (now h) k).at h (omega arith) in (e, omega (arith, k, late));
  }

module _ {C R A B : Type 0} {now : List C → ℕ} {t : ℕ} {X : Type 0} {P : R → Type 0}
    {Q : B → Type 0} where
  -- A call that takes at least so long.
  pub After-timed :
      (c : C) (g : List C → A) (ns : ℕ) (f : A → Exec C R B)
      → ((h : List C) → now h + ns ≤ now (c ∷ h))
      → ((a : A) → After now (t + ns) X P Q (f a))
      → After now t X P Q (call c g >>= f)
  unfolding ◌>>=◌ call
  After-timed c g ns f longer kf = record {
    at = λ h k.
        let (e, late) = (kf (g h)).at (c ∷ h) (omega (arith, k, longer h)) in
        (e, omega (arith, late));
  }

module _ {C R A E : Type 0} {now : List C → ℕ} {t : ℕ} {X : Type 0} {P : R → Type 0} where
  pub After-attempt :
      (c : C) (f : List C → Result E A) (handler : E → Exec C R A)
      → Steady now
      → ((e : E) → After now t X P Any (handler e))
      → After now t X P Any (attempt c f handler)
  unfolding attempt
  After-attempt c f handler steady k =
      After-bind _ _ (After-call c f steady) (λ r. After-catch r handler k)

pub ruleset after_rules = (
  After-pure, After-return, After-crash, After-if, After-bind, After-observe, After-catch,
  After-require, After-attempt, After-call,
)
