-- ===== src/Kube/Exec/Returns.antt =====
-- What an action comes to: every response that it returns early satisfies `P`, every value that it
-- ends with satisfies `Q`, and a panic needs `X` (with `⊥` for `X` there is none).
use discoblock.Base.{
  List, [], ◌∷◌, Option, none, some, Bool, true, false, ◌≡◌, refl, ◌∙◌, arith, All, if◌then◌else◌,
}
use discoblock.Kube.Exec.{
  Result, ok, err, Flow, next, done, panic, Exec, pure, return, crash, call, observe, catch,
  require, attempt, continue, ◌>>=◌, for_each,
}

abbrev pub Ends {ℓ} : {R A : Type ℓ} → Type 0 → (R → Type 0) → (A → Type 0) → Flow R A → Type 0
Ends X P Q (next a) = Q a
Ends X P Q (done r) = P r
Ends X P Q panic = X

abbrev pub Any {ℓ} : {A : Type ℓ} → A → Type 0
Any a = Unit

-- There is no early return.
abbrev pub Never {ℓ} : {A : Type ℓ} → A → Type 0
Never r = ⊥

pub record Returns {C R A : Type 0} (X : Type 0) (P : R → Type 0) (Q : A → Type 0) (m : Exec C R A)
    : Type 0 where
  pub at : (h : List C) → Ends X P Q (m h).0

module _ {C R A : Type 0} {X : Type 0} {P : R → Type 0} {Q : A → Type 0} where
  pub Returns-pure : (a : A) → Q a → Returns X P Q (pure {C = C} {R = R} a)
  unfolding pure
  Returns-pure a q = record { at = λ h. q }

  pub Returns-return : (r : R) → P r → Returns X P Q (return {C = C} {R = R} {A = A} r)
  unfolding return
  Returns-return r p = record { at = λ h. p }

  pub Returns-crash : X → Returns X P Q (crash {C = C} {R = R} {A = A})
  unfolding crash
  Returns-crash x = record { at = λ h. x }

  pub Returns-if :
      (b : Bool) (m n : Exec C R A)
      → (b ≡ true → Returns X P Q m)
      → (b ≡ false → Returns X P Q n)
      → Returns X P Q (if b then m else n)
  Returns-if true m n km kn = km refl
  Returns-if false m n km kn = kn refl

module _ {C R A : Type 0} {X : Type 0} {P : R → Type 0} where
  pub Returns-call : (c : C) (f : List C → A) → Returns X P Any (call {C = C} {R = R} c f)
  unfolding call
  Returns-call c f = record { at = λ h. tt }

  -- The answer is the environment's.
  pub Returns-told :
      (c : C) (f : List C → A)
      → Returns X P (λ a. (h : List C) × (f h ≡ a)) (call {C = C} {R = R} c f)
  unfolding call
  Returns-told c f = record { at = λ h. (h, refl) }

  pub Returns-observe : (f : List C → A) → Returns X P Any (observe {C = C} {R = R} f)
  unfolding observe
  Returns-observe f = record { at = λ h. tt }

  pub Returns-seen :
      (f : List C → A) → Returns X P (λ a. (h : List C) × (f h ≡ a)) (observe {C = C} {R = R} f)
  unfolding observe
  Returns-seen f = record { at = λ h. (h, refl) }

  pub Returns-catch :
      {E : Type 0} (r : Result E A) (handler : E → Exec C R A)
      → ((e : E) → Returns X P Any (handler e))
      → Returns X P Any (catch r handler)
  unfolding catch pure
  Returns-catch (ok a) handler k = record { at = λ h. tt }
  Returns-catch (err e) handler k = k e

  pub Returns-require :
      (o : Option A) (missing : Exec C R A)
      → Returns X P Any missing
      → Returns X P Any (require o missing)
  unfolding require pure
  Returns-require none missing k = k
  Returns-require (some a) missing k = record { at = λ h. tt }

  -- What is required is there.
  pub Returns-some : (a : A) (missing : Exec C R A) → Returns X P Any (require (some a) missing)
  unfolding require pure
  Returns-some a missing = record { at = λ h. tt }

module _ {C R A B : Type 0} {X : Type 0} {P : R → Type 0} {Q : B → Type 0} where
  Returns-continue :
      {S : A → Type 0} (r : Flow R A) (f : A → Exec C R B) (h : List C)
      → Ends X P S r
      → ((a : A) → S a → Returns X P Q (f a))
      → Ends X P Q (continue r f h).0
  Returns-continue (next a) f h e kf = (kf a e).at h
  Returns-continue (done r) f h e kf = e
  Returns-continue panic f h e kf = e

  -- The rest may use what the first action promises of its value.
  pub Returns-then :
      (S : A → Type 0) (m : Exec C R A) (f : A → Exec C R B)
      → Returns X P S m
      → ((a : A) → S a → Returns X P Q (f a))
      → Returns X P Q (m >>= f)
  unfolding ◌>>=◌
  Returns-then S m f km kf = record {
    at = λ h. let (r, h') = m h in Returns-continue {S = S} r f h' (km.at h) kf;
  }

  pub Returns-bind :
      (m : Exec C R A) (f : A → Exec C R B)
      → Returns X P Any m
      → ((a : A) → Returns X P Q (f a))
      → Returns X P Q (m >>= f)
  Returns-bind m f km kf = Returns-then Any m f km (λ a _. kf a)

module _ {C R A E : Type 0} {X : Type 0} {P : R → Type 0} where
  pub Returns-attempt :
      (c : C) (f : List C → Result E A) (handler : E → Exec C R A)
      → ((e : E) → Returns X P Any (handler e))
      → Returns X P Any (attempt c f handler)
  unfolding attempt
  Returns-attempt c f handler k =
      Returns-bind _ _ (Returns-call c f) (λ r. Returns-catch r handler k)

module _ {R A : Type 0} where
  Ends-implies :
      (X : Type 0) (P : R → Type 0) {Q S : A → Type 0}
      → ((a : A) → Q a → S a)
      → (r : Flow R A) → Ends X P Q r
      → Ends X P S r
  Ends-implies X P f (next a) e = f a e
  Ends-implies X P f (done r) e = e
  Ends-implies X P f panic e = e

module _ {C R A : Type 0} {X : Type 0} {P : R → Type 0} {Q S : A → Type 0} where
  pub Returns-implies : ((a : A) → Q a → S a) → (m : Exec C R A) → Returns X P Q m → Returns X P S m
  Returns-implies f m k = record { at = λ h. let (r, h') = m h in Ends-implies X P f r (k.at h) }

module _ {R A : Type 0} (X : Type 0) (P : R → Type 0) (Q : A → Type 0) where
  Ends-early : (r : Flow R A) → Ends X Never Q r → Ends X P Q r
  Ends-early (next a) e = e
  Ends-early (done r) e = elim e [ ]
  Ends-early panic e = e

  Ends-panics : (Y : Type 0) → (X → Y) → (r : Flow R A) → Ends X P Q r → Ends Y P Q r
  Ends-panics Y f (next a) e = e
  Ends-panics Y f (done r) e = e
  Ends-panics Y f panic e = f e

module _ {C R A : Type 0} {X Y : Type 0} {P : R → Type 0} {Q : A → Type 0} where
  -- What a panic shows, told in another way.
  pub Returns-panics : (X → Y) → (m : Exec C R A) → Returns X P Q m → Returns Y P Q m
  Returns-panics f m k = record { at = λ h. let (r, h') = m h in Ends-panics X P Q Y f r (k.at h) }

module _ {C R A : Type 0} {X : Type 0} {P : R → Type 0} {Q : A → Type 0} where
  pub Returns-early : (m : Exec C R A) → Returns X Never Q m → Returns X P Q m
  Returns-early m k = record { at = λ h. let (r, h') = m h in Ends-early X P Q r (k.at h) }

module _ {C R A E : Type 0} {X : Type 0} {P : R → Type 0} where
  -- A handler that does not go on: what goes on is the value that came.
  pub Returns-catch-told :
      (r : Result E A) (handler : E → Exec C R A)
      → ((e : E) → Returns X P (λ _. ⊥) (handler e))
      → Returns X P (λ a. r ≡ ok a) (catch r handler)
  unfolding catch
  Returns-catch-told (ok a) handler k = Returns-pure a refl
  Returns-catch-told (err e) handler k = Returns-implies (λ _ never. elim never [ ]) _ (k e)

  -- There was no error to handle.
  pub Returns-caught :
      (r : Result E A) (a : A) (handler : E → Exec C R A)
      → r ≡ ok a
      → Returns X P (λ b. b ≡ a) (catch r handler)
  unfolding catch
  Returns-caught (ok b) a handler e = Returns-pure b (cc e)
  Returns-caught (err x) a handler e = absurd (ground (arith, e))

  pub Returns-attempt-told :
      {Q : A → Type 0} (c : C) (f : List C → Result E A) (handler : E → Exec C R A)
      → ((e : E) → Returns X P (λ _. ⊥) (handler e))
      → ((h : List C) (a : A) → f h ≡ ok a → Q a)
      → Returns X P Q (attempt c f handler)
  unfolding attempt
  Returns-attempt-told c f handler k q =
      Returns-then _ _ _ (Returns-told c f) λ r told.
        Returns-implies (λ a e. q told.0 a (told.1 ∙ e)) _ (Returns-catch-told r handler k)

module _ {C R A : Type 0} {X : Type 0} {P : R → Type 0} where
  pub Returns-for_each :
      (xs : List A) (body : A → Exec C R (Unit {0}))
      → ((x : A) → Returns X P Any (body x))
      → Returns X P Any (for_each xs body)
  unfolding for_each pure
  Returns-for_each [] body k = record { at = λ h. tt }
  Returns-for_each (x ∷ xs) body k = Returns-bind _ _ (k x) (λ _. Returns-for_each xs body k)

module _ {C R A B E : Type 0} {X : Type 0} {P : R → Type 0} {Q : B → Type 0} where
  catch_bind :
      (r : Result E A) (g : E → R) (k : A → Exec C R B) (h : List C)
      → ((e : E) → P (g e))
      → ((a : A) → r ≡ ok a → Returns X P Q (k a))
      → Ends X P Q ((catch r (λ e. return (g e)) >>= k) h).0
  unfolding ◌>>=◌
  catch_bind (ok a) g k h pe ka = (ka a refl).at h
  catch_bind (err e) g k h pe ka = pe e

  -- The rest of the block may use what the server answered.
  pub Returns-answer :
      (c : C) (f : List C → Result E A) (g : E → R) (k : A → Exec C R B)
      → ((e : E) → P (g e))
      → ((h : List C) (a : A) → f h ≡ ok a → Returns X P Q (k a))
      → Returns X P Q (attempt c f (λ e. return (g e)) >>= k)
  unfolding attempt
  Returns-answer c f g k pe ka = record { at = λ h. catch_bind (f h) g k (c ∷ h) pe (λ a. ka h a) }

module _ {C R A : Type 0} {X : Type 0} {P : R → Type 0} where
  -- A loop whose every round ends with a fact about its element.
  pub Returns-each :
      (Q : A → Type 0) (xs : List A) (body : A → Exec C R (Unit {0}))
      → ((x : A) → Returns X P (λ _. Q x) (body x))
      → Returns X P (λ _. All Q xs) (for_each xs body)
  unfolding for_each
  Returns-each Q [] body k = Returns-pure tt tt
  Returns-each Q (x ∷ xs) body k =
      Returns-then _ _ _ (k x) λ _ q. Returns-implies (λ _ qs. (q, qs)) _ (Returns-each Q xs body k)

pub ruleset return_rules = (
  Returns-pure, Returns-return, Returns-crash, Returns-if, Returns-bind, Returns-observe,
  Returns-catch, Returns-require, Returns-attempt, Returns-for_each, Returns-call,
)
