-- ===== src/Controller/Reconcile.antt =====
-- internal/controller/chaosexperiment_controller.go: `Reconcile`.
pub mod Idle
pub mod Stages
pub mod Lifespan
pub mod Storing
pub mod Rounds
use Prim.Native.String
use k8s_chaos.Prelude.{ℕ, ◌-◌, String, none, some, ◌==◌, if◌then◌else◌}
use k8s_chaos.Go.{lit, fmt, GoError, Result, ok, err, msg, end, error_text, is_not_found}
use k8s_chaos.Api.{ChaosExperiment}
use k8s_chaos.Client.{M, ◌>>=◌, ◌>>◌, return}
use k8s_chaos.Windows.Calendar.{Calendar}
use k8s_chaos.Controller.Outcome.{
  Outcome, Handled, done, requeue, failed_with, phase_paused, phase_running,
}
use k8s_chaos.Controller.Gates.{Gate, Passage, check_dependencies, check_time_windows}
use k8s_chaos.Controller.Schedule.{Decision, check_schedule}
use k8s_chaos.Controller.Lifecycle.{check_experiment_lifecycle}
use k8s_chaos.Controller.Handlers.Common.{Reconciler, with_message}
use k8s_chaos.Controller.Dispatch.{dispatch}

abbrev pub with_phase : ChaosExperiment → String → ChaosExperiment
with_phase exp phase = record exp { status = record (exp.status) { phase = phase } }

module _ {W Location : Type 0} (r : Reconciler W) (cal : Calendar Location)
    (parse_cron : String → Result (ℕ → ℕ)) where
  open r.client use {now, get_experiment, update_status}

  -- The message of an error is stored, whether or not that succeeds, and the error is returned.
  unfoldable pub fail_with : ChaosExperiment → String → GoError → M W Outcome
  fail_with exp format e = do
    update_status (with_message exp (fmt format (msg (error_text e) end)))
    return (failed_with e)

  -- What follows `checkDependencies`: the switch on the action.
  unfoldable pub on_dependencies : ChaosExperiment → Result Gate → M W Outcome
  unfolding fail_with
  on_dependencies exp (err e) = fail_with exp "Dependency error: %v" e
  on_dependencies exp (ok (met, exp')) =
      if met
      then (do handled ← dispatch r exp'; return (handled.0))
      else return (requeue 15000000000)

  unfoldable pub after_windows : ChaosExperiment → M W Outcome
  unfolding on_dependencies
  after_windows exp = do checked ← check_dependencies r.client exp; on_dependencies exp checked

  -- What follows `checkTimeWindows`: `time.Until(requeueAt)`, where a negative delay counts as none.
  unfoldable pub on_windows : Passage → M W Outcome
  unfolding after_windows
  on_windows (some at, exp) = do t ← now; return (requeue (at - t))
  on_windows (none, exp) = after_windows exp

  unfoldable pub after_schedule : ChaosExperiment → M W Outcome
  unfolding on_windows
  after_schedule exp = do passage ← check_time_windows r.client cal exp; on_windows passage

  -- What follows `checkSchedule`.
  unfoldable pub on_schedule : ChaosExperiment → Result Decision → M W Outcome
  unfolding fail_with after_schedule
  on_schedule exp (err e) = fail_with exp "Schedule error: %v" e
  on_schedule exp (ok d) =
      if d.should_run then after_schedule d.exp else return (requeue d.requeue_after)

  unfoldable pub after_lifecycle : ChaosExperiment → M W Outcome
  unfolding on_schedule
  after_lifecycle exp = do checked ← check_schedule r.client parse_cron exp; on_schedule exp checked

  -- What follows `checkExperimentLifecycle`.
  unfoldable pub on_lifecycle : Result Gate → M W Outcome
  unfolding after_lifecycle
  on_lifecycle (err e) = return (failed_with e)
  on_lifecycle (ok (goes_on, exp)) = if goes_on then after_lifecycle exp else return done

  unfoldable pub run_experiment : ChaosExperiment → M W Outcome
  unfolding on_lifecycle
  run_experiment exp = do checked ← check_experiment_lifecycle r.client exp; on_lifecycle checked

  unfoldable pub pause : ChaosExperiment → M W Outcome
  pause exp = do
    updated ←
        update_status (with_message (with_phase exp phase_paused) (lit "Experiment is paused"))
    elim updated [ err e ↦ return (failed_with e) | ok _ ↦ return done ]

  -- An experiment that was paused is set running.
  unfoldable pub resume : ChaosExperiment → M W Outcome
  unfolding run_experiment
  resume exp =
      if exp.status.phase == phase_paused
      then (do
        let exp' = with_phase exp phase_running
        updated ← update_status exp'
        elim updated [ err e ↦ return (failed_with e) | ok _ ↦ run_experiment exp' ])
      else run_experiment exp

  unfoldable pub reconcile_experiment : ChaosExperiment → M W Outcome
  unfolding pause resume
  reconcile_experiment exp =
      if exp.spec.action == ""
      then (do update_status (with_message exp (lit "Error: Action not specified")); return done)
      else if exp.spec.paused
      then pause exp
      else resume exp

  -- What follows the read of the experiment.
  unfoldable pub on_experiment : Result ChaosExperiment → M W Outcome
  unfolding reconcile_experiment
  on_experiment (err e) = return (if is_not_found e then done else failed_with e)
  on_experiment (ok exp) = reconcile_experiment exp

  unfoldable pub reconcile : String → String → M W Outcome
  unfolding on_experiment
  reconcile namespace name = do found ← get_experiment namespace name; on_experiment found
