-- ===== src/Controller/Handlers/Denied.antt =====
-- internal/controller/chaosexperiment_controller.go: listing pods without the permission to.
use k8s_chaos.Prelude.{◌+◌, ◌≡◌, ◌⊎◌, none, some}
use k8s_chaos.Go.{GoError, reason, forbidden, unauthorized}
use k8s_chaos.Api.{ChaosExperiment}
use k8s_chaos.Controller.Outcome.{Handled, phase_failed}

-- The experiment has failed for good, with the message as its error, and asks for no other run.
pub record GaveUp (exp : ChaosExperiment) (handled : Handled) : Type 0 where
  pub failed : handled.1.status.phase ≡ phase_failed
  pub told : handled.1.status.last_error ≡ handled.1.status.message
  pub no_retry : handled.1.status.next_retry_time ≡ none
  pub same_count : handled.1.status.retry_count ≡ exp.status.retry_count
  pub no_requeue : handled.0.requeue_after ≡ 0

-- The experiment is to be tried again, with one retry more.
pub record IsRetried (exp : ChaosExperiment) (handled : Handled) : Type 0 where
  pub pending : handled.1.status.phase ≡ "Pending"
  pub counted : handled.1.status.retry_count ≡ exp.status.retry_count + 1

-- The cause of the error is an API error of the reason Forbidden or Unauthorized.
abbrev pub IsDenied : GoError → Type 0
IsDenied e = (reason e ≡ some forbidden) ⊎ (reason e ≡ some unauthorized)
