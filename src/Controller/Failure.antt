-- ===== src/Controller/Failure.antt =====
-- internal/controller/chaosexperiment_controller.go: retries with backoff, permission errors, success
-- and dry runs.
pub mod Backoff
pub mod Retries
pub mod Attempts
use k8s_chaos.Prelude.{
  ℕ, suc, ◌+◌, ◌-◌, ◌*◌, ◌^◌, String, List, [], ◌∷◌, Bool, true, false, ◌&&◌, ◌||◌, none, some, ltb,
  eqb, min, map, take, length, ◌==◌, if◌then◌else◌,
}
use k8s_chaos.Go.{
  Message, lit, fmt, GoError, error_text, wrapf, is_forbidden, is_unauthorized, Result, ok, err,
  str, num, msg, strs, end,
}
use k8s_chaos.Api.{ChaosExperiment, ChaosExperimentSpec, ChaosExperimentStatus, Pod}
use k8s_chaos.Client.{M, ◌>>=◌, ◌>>◌, return, Client}
use k8s_chaos.Durations.Parse.{parse_duration, wrap}
use k8s_chaos.Webhook.Safety.{requested_count}
use k8s_chaos.Controller.Errors.{ErrorType, permission, ChaosError, format_error_message}
use k8s_chaos.Controller.Outcome.{
  Handled, done, requeue, failed_with, phase_pending, phase_failed, phase_completed,
}

abbrev pub default_max_retries : ℕ
default_max_retries = 3

-- 30 seconds and 10 minutes.
abbrev pub default_retry_delay : ℕ
default_retry_delay = 30000000000

abbrev pub max_retry_delay : ℕ
max_retry_delay = 600000000000

-- Whether a signed 64-bit pattern is greater than a positive number.
abbrev pub is_greater : ℕ → ℕ → Bool
is_greater d k = ltb d (2 ^ 63) && ltb k d

-- The base delay: the one of the spec if it parses.
unfoldable pub base_delay : ChaosExperimentSpec → ℕ
base_delay spec =
    if spec.retry_delay == ""
    then default_retry_delay
    else elim (parse_duration spec.retry_delay) [ err _ ↦ default_retry_delay | ok d ↦ d ]

-- `baseDelay * time.Duration(1<<uint(retryCount))`, cut at 10 minutes.
unfoldable pub exponential_delay : ℕ → ℕ → ℕ
exponential_delay base retries =
    let delay = wrap (base * wrap (2 ^ retries)) in
    if is_greater delay max_retry_delay then max_retry_delay else delay

unfoldable pub calculate_retry_delay : ChaosExperiment → ℕ
unfolding base_delay exponential_delay
calculate_retry_delay exp =
    if exp.spec.retry_backoff == "" || exp.spec.retry_backoff == "exponential"
    then exponential_delay (base_delay exp.spec) exp.status.retry_count
    else base_delay exp.spec

-- `if maxRetries == 0 { maxRetries = defaultMaxRetries }`.
unfoldable pub effective_max_retries : ChaosExperiment → ℕ
effective_max_retries exp =
    if eqb exp.spec.max_retries 0 then default_max_retries else exp.spec.max_retries

unfoldable pub should_retry : ChaosExperiment → Bool
unfolding effective_max_retries
should_retry exp = ltb exp.status.retry_count (effective_max_retries exp)

unfoldable pub is_permission_denied_error : GoError → Bool
is_permission_denied_error e = is_forbidden e || is_unauthorized e

-- A permission error is retried once, after 30 seconds.
unfoldable pub retry_limit : ChaosExperiment → ErrorType → ℕ
unfolding effective_max_retries
retry_limit exp t = elim t [ permission ↦ 1 | _ ↦ effective_max_retries exp ]

unfoldable pub retry_delay_for : ChaosExperiment → ErrorType → ℕ
unfolding calculate_retry_delay
retry_delay_for exp t = elim t [ permission ↦ 30000000000 | _ ↦ calculate_retry_delay exp ]

-- `t.Add(d)` for a signed pattern.
abbrev pub add_duration : ℕ → ℕ → ℕ
add_duration t d = if ltb d (2 ^ 63) then t + d else t - (2 ^ 64 - d)

-- The status that a scheduled retry leaves, `failed_at` and `retried_at` being the two clock readings.
unfoldable pub retry_status : ChaosExperiment → ChaosError → ℕ → ℕ → ChaosExperimentStatus
unfolding retry_limit retry_delay_for
retry_status exp ce failed_at retried_at =
    let text = format_error_message ce in
    let delay = retry_delay_for exp ce.error_type in
    record (exp.status) {
      last_run_time = some failed_at;
      last_error = text;
      retry_count = exp.status.retry_count + 1;
      phase = phase_pending;
      next_retry_time = some (add_duration retried_at delay);
      message = fmt "Failed: %s (Retry %d/%d in %s)" (
          msg text (
            num (exp.status.retry_count + 1)
              (num (retry_limit exp ce.error_type) (num delay end))));
    }

-- The status that is left where no retry remains.
unfoldable pub failed_status : ChaosExperiment → ChaosError → ℕ → ChaosExperimentStatus
failed_status exp ce failed_at =
    let text = format_error_message ce in
    record (exp.status) {
      last_run_time = some failed_at;
      last_error = text;
      phase = phase_failed;
      message = fmt "Failed after %d retries: %s" (num exp.status.retry_count (msg text end));
      next_retry_time = none;
    }

unfoldable pub success_status : ChaosExperimentStatus → ChaosExperimentStatus
success_status s = record s {
  retry_count = 0;
  last_error = lit "";
  next_retry_time = none;
  phase = phase_completed;
}

abbrev pub permission_text : String → GoError → Message
permission_text operation e =
    fmt
      "Permission denied while %s: %v. Ensure the controller ServiceAccount has the required RBAC verbs. Run: kubectl describe clusterrole chaos-operator-role"
      (str operation (msg (error_text e) end))

-- `count` of `handleDryRun`: at least 1, at most the number of pods.
unfoldable pub dry_run_count : ChaosExperimentSpec → List Pod → ℕ
unfolding requested_count
dry_run_count spec pods = min (requested_count spec.count) (length pods)

-- The status behind a permission error.
unfoldable pub denied_status : ChaosExperimentStatus → Message → ℕ → ChaosExperimentStatus
denied_status s text t = record s {
  last_run_time = some t;
  phase = phase_failed;
  message = text;
  last_error = text;
  next_retry_time = none;
}

-- The status behind a dry run.
unfoldable pub dry_run_status : ChaosExperiment → List Pod → String → ℕ → ChaosExperimentStatus
unfolding dry_run_count
dry_run_status exp pods action_type t =
    let count = dry_run_count exp.spec pods in
    let names = map (λ (pod : Pod). pod.name) (take count pods) in
    record (exp.status) {
      last_run_time = some t;
      message =
          fmt "DRY RUN: Would %s %d pod(s): %v" (str action_type (num count (strs names end)));
      phase = phase_completed;
    }

module _ {W : Type 0} (c : Client W) where
  open c use {now, event, metric, update_status}

  unfoldable pub schedule_retry : ChaosExperiment → ChaosError → ℕ → M W Handled
  unfolding retry_status
  schedule_retry exp ce failed_at = do
    retried_at ← now
    let exp' = record exp { status = retry_status exp ce failed_at retried_at }
    let delay = retry_delay_for exp ce.error_type
    updated ← update_status exp'
    elim updated [
      | err e ↦ return (failed_with e, exp')
      | ok _ ↦ do
        event "Warning" "ExperimentRetrying" (
            fmt "Experiment failed, will retry %d/%d in %s: %s" (
              num exp'.status.retry_count (
                num (retry_limit exp ce.error_type)
                  (num delay (msg (format_error_message ce) end)))))
        return (requeue delay, exp')
    ]

  unfoldable pub give_up : ChaosExperiment → ChaosError → ℕ → M W Handled
  unfolding failed_status
  give_up exp ce failed_at = do
    let exp' = record exp { status = failed_status exp ce failed_at }
    updated ← update_status exp'
    elim updated [
      | err e ↦ return (failed_with e, exp')
      | ok _ ↦ do
        event "Warning" "ExperimentFailed" (
            fmt "Experiment failed after %d retries: %s"
              (num exp.status.retry_count (msg (format_error_message ce) end)))
        return (done, exp')
    ]

  unfoldable pub handle_experiment_failure : ChaosExperiment → ChaosError → M W Handled
  unfolding retry_limit schedule_retry give_up
  handle_experiment_failure exp ce = do
    failed_at ← now
    if ltb exp.status.retry_count (retry_limit exp ce.error_type)
        then schedule_retry exp ce failed_at
        else give_up exp ce failed_at

  unfoldable pub handle_permission_denied :
      ChaosExperiment → String → GoError → M W (Result (Unit {0}) × ChaosExperiment)
  unfolding denied_status
  handle_permission_denied exp operation e = do
    t ← now
    let text = permission_text operation e
    let exp' = record exp { status = denied_status exp.status text t }
    updated ← update_status exp'
    elim updated [
      | err u ↦ return (err u, exp')
      | ok _ ↦ do event "Warning" "PermissionDenied" text; return (ok tt, exp')
    ]

  unfoldable pub handle_experiment_success :
      ChaosExperiment → M W (Result (Unit {0}) × ChaosExperiment)
  unfolding success_status
  handle_experiment_success exp = do
    let exp' = record exp { status = success_status exp.status }
    updated ← update_status exp'
    elim updated [
      | err e ↦ return (err (wrapf "failed to update status after success: %w" end e), exp')
      | ok _ ↦ do
        event "Normal" "ExperimentSucceeded"
            (fmt "Chaos experiment completed successfully: %s" (msg exp.status.message end))
        return (ok tt, exp')
    ]

  unfoldable pub handle_dry_run :
      ChaosExperiment → List Pod → String → M W (Result (Unit {0}) × ChaosExperiment)
  unfolding dry_run_status
  handle_dry_run exp pods action_type = do
    t ← now
    let exp' = record exp { status = dry_run_status exp pods action_type t }
    updated ← update_status exp'
    elim updated [
      | err e ↦ return (err e, exp')
      | ok _ ↦ do
        metric "chaosexperiment_safety_dryrun_total" (exp.spec.action ∷ exp.spec.namespace ∷ []) 1
        return (ok tt, exp')
    ]
