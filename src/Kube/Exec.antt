-- ===== src/Kube/Exec.antt =====
-- The monad of the handlers. A handler makes calls to its environment one after another, may return
-- early with a response, and may panic. The history is the calls made so far, the latest first.
pub mod Emits
pub mod Ordered
pub mod Reaches
pub mod Returns
pub mod After
use discoblock.Base.{List, [], ◌∷◌, Option, none, some, Bool, true, false, ◌≡◌, refl, String}

-- Go's (value, error) pair.
pub data Result {ℓ} (E : Type ℓ) (A : Type ℓ) : Type ℓ where
  ok : A → Result E A
  err : E → Result E A

-- `done r` is a `return r` on the way; `panic` is a run-time panic.
pub data Flow {ℓ} (R : Type ℓ) (A : Type ℓ) : Type ℓ where
  next : A → Flow R A
  done : R → Flow R A
  panic : Flow R A

abbrev pub Exec : Type 0 → Type 0 → Type 0 → Type 0
Exec C R A = List C → Flow R A × List C

module _ {C R A : Type 0} where
  pub pure : A → Exec C R A
  pure a h = (next a, h)

  pub return : R → Exec C R A
  return r h = (done r, h)

  pub crash : Exec C R A
  crash h = (panic, h)

  -- A call is recorded; its answer may depend on the calls before it.
  pub call : C → (List C → A) → Exec C R A
  call c answer h = (next (answer h), c ∷ h)

  -- A value of the environment that is read without a call, such as the clock.
  pub observe : (List C → A) → Exec C R A
  observe f h = (next (f h), h)

  pub catch : {E : Type 0} → Result E A → (E → Exec C R A) → Exec C R A
  catch (ok a) handler = pure a
  catch (err e) handler = handler e

  pub require : Option A → Exec C R A → Exec C R A
  require (some a) missing = pure a
  require none missing = missing

module _ {C R A B : Type 0} where
  abbrev pub continue : Flow R A → (A → Exec C R B) → Exec C R B
  continue (next a) f h = f a h
  continue (done r) f h = (done r, h)
  continue panic f h = (panic, h)

  infixl 10 ◌>>=◌ ◌>>◌
  -- opening this opens the ways to build an action too
  unfoldable pub ◌>>=◌ : Exec C R A → (A → Exec C R B) → Exec C R B
  unfolding pure return crash call observe catch require
  ◌>>=◌ m f h = let (r, h') = m h in continue r f h'

  abbrev pub ◌>>◌ : Exec C R A → Exec C R B → Exec C R B
  m >> n = m >>= λ _. n

module _ {C R A E : Type 0} where
  -- A call whose error is handled at once.
  unfoldable pub attempt : C → (List C → Result E A) → (E → Exec C R A) → Exec C R A
  unfolding ◌>>=◌
  attempt c f handler = call c f >>= λ r. catch r handler

-- Runs a helper that returns by its own early returns: its value is what it returns.
abbrev pub merge {ℓ} : {R Q : Type ℓ} → Flow R R → Flow Q R
merge (next r) = next r
merge (done r) = next r
merge panic = panic

unfoldable pub nested : {C R Q : Type 0} → Exec C R R → Exec C Q R
nested m h = let (r, h') = m h in (merge r, h')

-- `go f()`, run to its end: what it returns is dropped, and a panic ends the process.
abbrev pub settle : {R Q A : Type 0} → Flow R A → Flow Q (Unit {0})
settle (next a) = next tt
settle (done r) = next tt
settle panic = panic

unfoldable pub detached : {C R Q A : Type 0} → Exec C R A → Exec C Q (Unit {0})
detached m h = let (r, h') = m h in (settle r, h')

-- What a handler answers: `none` is a panic.
abbrev pub answer {ℓ} : {R : Type ℓ} → Flow R R → Option R
answer (next r) = some r
answer (done r) = some r
answer panic = none

module _ {C A : Type 0} where
  -- A loop over a list whose body may return from the function.
  unfoldable pub for_each : {R : Type 0} → List A → (A → Exec C R (Unit {0})) → Exec C R (Unit {0})
  unfolding ◌>>=◌
  for_each [] body = pure tt
  for_each (x ∷ xs) body = body x >>= λ _. for_each xs body
