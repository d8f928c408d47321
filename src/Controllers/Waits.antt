-- ===== src/Controllers/Waits.antt =====
-- controllers/pvc_controller.go: the three loops of createPVC that wait for an object, as one loop over
-- the call that each makes and what it makes of the answer. A round that does not find what it waits for
-- ends with a timer of a second.
pub mod Told
pub mod Enough
pub mod Calls
use discoblock.Base.{ℕ, zero, suc, ◌+◌, ◌-◌, ◌/◌, Option, none, some, String, if◌then◌else◌, leb}
use discoblock.Base.Int.{ℤ, pos_part, neg_part}
use discoblock.Kube.Exec.{pure, call, observe, ◌>>=◌}
use discoblock.Kube.Api.{Api, Action, Call, History}

-- time.Second
abbrev pub second : ℕ
second = 1000000000

pub data Polled (S A : Type 0) : Type 0 where
  again : S → Polled S A
  found : A → Polled S A

-- How the loop is left; `starved` is the end of the fuel.
pub data Waited (S A : Type 0) : Type 0 where
  ready : A → Waited S A
  timed_out : S → Waited S A
  starved : Waited S A

-- Enough rounds for a context with this timeout.
abbrev pub rounds : ℤ → ℕ
rounds timeout = suc (suc (pos_part timeout / second))

-- the deadline of a context that is made at this time
abbrev pub deadline_after : ℕ → ℤ → ℕ
deadline_after start timeout = start + pos_part timeout - neg_part timeout

-- `waitCtx.Err().Error()`, unless a round left an error
abbrev pub last_error : Option String → String
last_error none = "context deadline exceeded"
last_error (some e) = e

module _ {R S A : Type 0} (api : Api) (deadline : ℕ) (ask : S → Call)
    (judge : S → History → Polled S A) where
  abbrev pub on_polled : (S → Action R (Waited S A)) → Polled S A → Action R (Waited S A)
  on_polled later (again t) = call (Call.sleep second) (λ _. tt) >>= λ _. later t
  on_polled later (found a) = pure (ready a)

  abbrev pub poll : (S → Action R (Waited S A)) → S → Action R (Waited S A)
  poll later s = call (ask s) (judge s) >>= λ r. on_polled later r

  abbrev pub turn : (S → Action R (Waited S A)) → S → ℕ → Action R (Waited S A)
  turn later s now = if leb deadline now then pure (timed_out s) else poll later s

  unfoldable pub wait : ℕ → S → Action R (Waited S A)
  unfolding ◌>>=◌
  wait zero s = pure starved
  wait (suc n) s = let later = wait n in observe api.now >>= λ now. turn later s now
