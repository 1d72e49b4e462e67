-- ===== src/Controller/Handlers/Common.antt =====
-- internal/controller/chaosexperiment_controller.go: the parts that the handlers write out one by one.
use k8s_chaos.Prelude.{
  ℕ, ◌-◌, String, List, [], ◌∷◌, true, false, Option, none, some, length, if◌then◌else◌,
}
use k8s_chaos.Go.{Message, lit, GoError, errorf, wrapf, Result, ok, err, end}
use k8s_chaos.Api.{ChaosExperiment, ResourceReference, ErrorDetails, Pod}
use k8s_chaos.Client.{M, ◌>>=◌, ◌>>◌, return, Client}
use k8s_chaos.History.Retention.{HistoryConfig}
use k8s_chaos.History.Record.{Formats, create_history_record, build_resource_references}
use k8s_chaos.Controller.Errors.{execution, of_type}
use k8s_chaos.Controller.Outcome.{Handled, done, requeue, failed_with, status_success, one_minute}
use k8s_chaos.Controller.Failure.{
  is_permission_denied_error, handle_experiment_failure, handle_permission_denied,
  handle_experiment_success, handle_dry_run,
}

-- `ChaosExperimentReconciler`, with the functions of `fmt` and `time` that it uses.
pub record Reconciler (W : Type 0) : Type 0 where
  pub client : Client W
  pub history_config : HistoryConfig
  pub formats : Formats
  pub sprintf : Message → String
  -- The error that controller-runtime makes of a panic.
  pub recovered : GoError

abbrev pub with_message : ChaosExperiment → Message → ChaosExperiment
with_message exp m = record exp { status = record (exp.status) { message = m } }

abbrev pub with_run : ChaosExperiment → ℕ → Message → ChaosExperiment
with_run exp t m = record exp {
  status = record (exp.status) { last_run_time = some t; message = m };
}

-- `return ctrl.Result{}, f(...)`.
abbrev pub outcome_of : Result (Unit {0}) × ChaosExperiment → Handled
outcome_of (ok _, exp) = (done, exp)
outcome_of (err e, exp) = (failed_with e, exp)

module _ {W : Type 0} (r : Reconciler W) where
  open r.client use {now, track, metric, update_status}

  -- The gauge of active experiments goes up, and down again at every return.
  abbrev pub tracked : String → M W Handled → M W Handled
  tracked action body = do track action true; handled ← body; track action false; return handled

  -- An error of `getEligiblePods`.
  unfoldable pub eligible_failure : ChaosExperiment → String → GoError → M W Handled
  eligible_failure exp operation e =
      if is_permission_denied_error e
      then (do
        denied ← handle_permission_denied r.client exp operation e
        return (outcome_of denied))
      else handle_experiment_failure r.client exp
          (record (of_type (wrapf "failed to get eligible pods: %w" end e) execution) {
            operation = "list eligible pods";
          })

  -- Nothing matches: the message is stored, and the experiment is looked at again in a minute.
  unfoldable pub nothing_found : ChaosExperiment → String → M W Handled
  nothing_found exp text = do
    let exp' = with_message exp (lit text)
    update_status exp'
    return (requeue one_minute, exp')

  unfoldable pub preview : ChaosExperiment → List Pod → String → M W Handled
  preview exp pods action_type = do
    previewed ← handle_dry_run r.client exp pods action_type
    return (outcome_of previewed)

  -- The loop over the targets: the names of those that were hit, in order.
  unfoldable pub attack_each : {A : Type 0} → (A → M W (Option String)) → List A → M W (List String)
  attack_each attack [] = return []
  attack_each attack (x ∷ xs) = do
    hit ← attack x
    hits ← attack_each attack xs
    return (elim hit [ none ↦ hits | some name ↦ name ∷ hits ])

  -- The metrics of a run, and its history record, whose error is logged.
  unfoldable pub record_run :
      ChaosExperiment
      → (action status : String) → List ResourceReference
      → ℕ
      → Option ErrorDetails
      → M W (Unit {0})
  record_run exp action status affected started details = do
    ended ← now
    metric "chaosexperiment_executions_total" (action ∷ exp.spec.namespace ∷ status ∷ []) 1
    metric "chaosexperiment_duration_seconds" (action ∷ exp.spec.namespace ∷ []) (ended - started)
    metric "chaosexperiment_resources_affected" (action ∷ exp.spec.namespace ∷ exp.name ∷ [])
        (length affected)
    create_history_record r.client r.formats r.history_config exp status affected started details
    return tt

  -- The end of a pod handler: a failure if no pod was hit, and otherwise the success, its metrics and
  -- its history record.
  unfoldable pub finish_pods :
      ChaosExperiment
      → (action what : String) → (List String → Message)
      → (verb : String) → ℕ
      → List String
      → M W Handled
  unfolding record_run
  finish_pods exp action what summary verb started [] =
      handle_experiment_failure r.client exp (of_type (errorf what end) execution)
  finish_pods exp action what summary verb started (hit ∷ hits) = do
    t ← now
    (updated, exp') ← handle_experiment_success r.client (with_run exp t (summary (hit ∷ hits)))
    elim updated [
      | err e ↦ return (failed_with e, exp')
      | ok _ ↦ do
        record_run exp' action status_success
            (build_resource_references verb exp.spec.namespace (hit ∷ hits) "Pod") started none
        return (requeue one_minute, exp')
    ]
