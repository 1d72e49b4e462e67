-- ===== src/Controller/Outcome.antt =====
-- What a reconcile returns: `ctrl.Result` and an error.
use k8s_chaos.Prelude.{ℕ, String, Option, none, some}
use k8s_chaos.Go.{GoError}
use k8s_chaos.Api.{ChaosExperiment}

pub record Outcome : Type 0 where
  -- `RequeueAfter` in nanoseconds, as a 64-bit pattern; 0 asks for no requeue.
  pub requeue_after : ℕ
  pub failure : Option GoError

abbrev pub done : Outcome
done = record { requeue_after = 0; failure = none }

abbrev pub requeue : ℕ → Outcome
requeue d = record { requeue_after = d; failure = none }

abbrev pub failed_with : GoError → Outcome
failed_with e = record { requeue_after = 0; failure = some e }

-- The code changes the experiment through a pointer: a handler returns it with its outcome.
abbrev pub Handled : Type 0
Handled = Outcome × ChaosExperiment

abbrev pub phase_running : String
phase_running = "Running"

abbrev pub phase_completed : String
phase_completed = "Completed"

abbrev pub phase_pending : String
phase_pending = "Pending"

abbrev pub phase_failed : String
phase_failed = "Failed"

abbrev pub phase_paused : String
phase_paused = "Paused"

abbrev pub status_success : String
status_success = "success"

abbrev pub status_failure : String
status_failure = "failure"

abbrev pub one_minute : ℕ
one_minute = 60000000000
