-- ===== src/Controllers/Outcome.antt =====
-- What a Reconcile returns: ctrl.Result and its error.
use discoblock.Base.{ℕ, String, Bool, true, false, Option, none, some}

pub record Outcome : Type 0 where
  pub requeue : Bool
  pub requeue_after : ℕ
  pub error : Option String

-- `ctrl.Result{}, nil`
abbrev pub success : Outcome
success = record { requeue = false; requeue_after = 0; error = none }

-- `ctrl.Result{}, err`
abbrev pub failure : String → Outcome
failure e = record { requeue = false; requeue_after = 0; error = some e }

-- `ctrl.Result{Requeue: true}, nil`
abbrev pub again : Outcome
again = record { requeue = true; requeue_after = 0; error = none }

-- `ctrl.Result{RequeueAfter: after}, nil`
abbrev pub again_after : ℕ → Outcome
again_after after = record { requeue = false; requeue_after = after; error = none }
