-- ===== src/Utils/Semaphore.antt =====
-- pkg/utils/semaphore.go. A semaphore is a channel with room for `concurrency` values: `sem()` puts
-- one in or gives up when its timer fires, and each call of a returned `unlock` takes one out. The
-- interleaving of the threads is a sequence of steps.
pub mod Wait
use mathlib.Core.Path.{subst}
use discoblock.Base.{
  ℕ, zero, suc, ◌+◌, ◌-◌, ◌≤◌, ◌<◌, ◌≡◌, refl, List, [], ◌∷◌, ◌++◌, length, arith, All, sym,
}

pub record Semaphore : Type 0 where
  -- the room of the channel, and how many values are in it
  pub concurrency : ℕ
  pub used : ℕ
  -- how often each returned `unlock` has been called, the latest one first
  pub unlocks : List ℕ

unfoldable pub create_semaphore : ℕ → Semaphore
create_semaphore concurrency = record { concurrency = concurrency; used = 0; unlocks = [] }

-- One step of one thread. When there is room and the timer has fired, `select` may take either case. An
-- `unlock` may be called again; a call waits while the channel is empty.
pub data Step : Semaphore → Semaphore → Type 0 where
  lock :
      (s : Semaphore)
      → s.used < s.concurrency
      → Step s (record s { used = s.used + 1; unlocks = 0 ∷ s.unlocks })
  timeout : (s : Semaphore) → Step s s
  unlock :
      (s : Semaphore) (later : List ℕ) (k : ℕ) (earlier : List ℕ)
      → s.unlocks ≡ later ++ k ∷ earlier
      → 0 < s.used
      → Step s (record s { used = s.used - 1; unlocks = later ++ suc k ∷ earlier })

pub data Reach (s : Semaphore) : Semaphore → Type 0 where
  here : Reach s s
  then_step : {t u : Semaphore} → Reach s t → Step t u → Reach s u

-- the calls of all `unlock`s
abbrev pub total : List ℕ → ℕ
total [] = 0
total (k ∷ ks) = k + total ks

-- The `unlock`s that have not been called: their holders are inside.
abbrev pub inside : List ℕ → ℕ
inside [] = 0
inside (zero ∷ ks) = suc (inside ks)
inside (suc k ∷ ks) = inside ks

-- How many calls of an `unlock` were not its first.
abbrev pub again : List ℕ → ℕ
again [] = 0
again (k ∷ ks) = (k - 1) + again ks

pub record IsSound (n : ℕ) (s : Semaphore) : Type 0 where
  pub room : s.concurrency ≡ n
  pub counted : s.used + total s.unlocks ≡ length s.unlocks
  pub bounded : s.used ≤ s.concurrency

total-append :
    (later : List ℕ) (k : ℕ) (earlier : List ℕ)
    → total (later ++ suc k ∷ earlier) ≡ suc (total (later ++ k ∷ earlier))
total-append [] k earlier = omega arith
total-append (x ∷ later) k earlier = omega (arith, total-append later k earlier)

length-append :
    (later : List ℕ) (k j : ℕ) (earlier : List ℕ)
    → length (later ++ k ∷ earlier) ≡ length (later ++ j ∷ earlier)
length-append [] k j earlier = refl
length-append (x ∷ later) k j earlier = omega (arith, length-append later k j earlier)

Step-IsSound : {n : ℕ} {s u : Semaphore} → Step s u → IsSound n s → IsSound n u
Step-IsSound (lock s h) v = record {
  room = v.room;
  counted = omega (arith, v.counted);
  bounded = omega (arith, h);
}
Step-IsSound (timeout s) v = v
Step-IsSound (unlock s later k earlier e h) v =
    let counted : s.used + total (later ++ k ∷ earlier) ≡ length (later ++ k ∷ earlier) =
      subst (λ l. s.used + total l ≡ length l) e v.counted in
    record {
      room = v.room;
      counted =
          omega (
            arith,
            counted,
            h,
            total-append later k earlier,
            length-append later k (suc k) earlier,
          );
      bounded = omega (arith, v.bounded);
    }

Reach-IsSound : (n : ℕ) {s u : Semaphore} → IsSound n s → Reach s u → IsSound n u
Reach-IsSound n v here = v
Reach-IsSound n v (then_step r st) = Step-IsSound st (Reach-IsSound n v r)

inside-total : (ks : List ℕ) → inside ks + total ks ≡ length ks + again ks
inside-total [] = refl
inside-total (zero ∷ ks) = omega (arith, inside-total ks)
inside-total (suc k ∷ ks) = omega (arith, inside-total ks)

-- Whatever the threads do, the channel holds at most `concurrency` values: one for each `unlock` that
-- was returned, less one for each call of any of them. The threads inside, whose `unlock` has not been
-- called, are as many as the values in the channel and the calls of an `unlock` after its first.
pub semaphore_bounds :
    (n : ℕ) {s : Semaphore}
    → Reach (create_semaphore n) s
    → (s.used ≤ n)
      × (s.used + total s.unlocks ≡ length s.unlocks)
      × (inside s.unlocks ≡ s.used + again s.unlocks)
unfolding create_semaphore
semaphore_bounds n {s} r =
    let v : IsSound n s =
      Reach-IsSound n (record { room = refl; counted = refl; bounded = omega arith }) r in
    (omega (arith, v.bounded, v.room), v.counted, omega (arith, v.counted, inside-total s.unlocks))
