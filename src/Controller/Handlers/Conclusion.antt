-- ===== src/Controller/Handlers/Conclusion.antt =====
-- internal/controller/chaosexperiment_controller.go: the end of the handlers that report a failure to
-- reach any target as a run that took place: the status, the metrics and the history record.
use k8s_chaos.Prelude.{ℕ, String, List, [], ◌∷◌, Bool, none, some, if◌then◌else◌}
use k8s_chaos.Go.{Message, lit, ok, err}
use k8s_chaos.Api.{ChaosExperiment, ChaosExperimentStatus, ErrorDetails}
use k8s_chaos.Client.{M, ◌>>=◌, ◌>>◌, return}
use k8s_chaos.Controller.Outcome.{
  Handled, requeue, failed_with, phase_running, status_success, status_failure, one_minute,
}
use k8s_chaos.History.Record.{build_resource_references}
use k8s_chaos.Controller.Handlers.Common.{Reconciler, record_run}

-- What becomes of the counters of retries: some handlers leave them, some reset them after a success,
-- and some reset them in any case and set the phase.
pub data Retries : Type 0 where
  left_alone reset_on_success reset_and_running : Retries

-- What a handler reports: the labels of the metrics and of the affected resources, the message for
-- the names that were hit and the one for none, and whether a failure is explained in the record.
pub record Report : Type 0 where
  pub action : String
  pub verb : String
  pub namespace : String
  pub kind : String
  pub summary : List String → Message
  pub failure : String
  pub retries : Retries
  pub explained : Bool

abbrev reset_retries : ChaosExperimentStatus → ChaosExperimentStatus
reset_retries s = record s { retry_count = 0; last_error = lit ""; next_retry_time = none }

abbrev settle_retries : Retries → List String → ChaosExperimentStatus → ChaosExperimentStatus
settle_retries left_alone hits s = s
settle_retries reset_on_success [] s = s
settle_retries reset_on_success (hit ∷ hits) s = reset_retries s
settle_retries reset_and_running hits s = record (reset_retries s) { phase = phase_running }

unfoldable pub concluded_status :
    Report → ℕ → List String → ChaosExperimentStatus → ChaosExperimentStatus
concluded_status report t hits s = settle_retries report.retries hits (record s {
  last_run_time = some t;
  message = elim hits [ [] ↦ lit report.failure | hit ∷ more ↦ report.summary (hit ∷ more) ];
})

abbrev failure_details : ChaosExperiment → ErrorDetails
failure_details exp = record {
  message = exp.status.message;
  code = "";
  last_error = lit "";
  failure_reason = "ExecutionError";
}

module _ {W : Type 0} (r : Reconciler W) where
  open r.client use {now, update_status}

  unfoldable pub conclude : ChaosExperiment → Report → ℕ → List String → M W Handled
  unfolding concluded_status
  conclude exp report started hits = do
    t ← now
    let exp' = record exp { status = concluded_status report t hits exp.status }
    updated ← update_status exp'
    elim updated [
      | err e ↦ return (failed_with e, exp')
      | ok _ ↦ do
        record_run r exp' report.action (elim hits [ [] ↦ status_failure | _ ∷ _ ↦ status_success ])
            (build_resource_references report.verb report.namespace hits report.kind) started
            (elim hits [
              | [] ↦ if report.explained then some (failure_details exp') else none
              | _ ∷ _ ↦ none
            ])
        return (requeue one_minute, exp')
    ]
