-- ===== src/Controller/Handlers/Pods.antt =====
-- internal/controller/chaosexperiment_controller.go: `handlePodKill` and `handlePodFailure`.
use k8s_chaos.Prelude.{ℕ, String, List, [], ◌∷◌, Option, none, some, length, take}
use k8s_chaos.Go.{fmt, GoError, Result, ok, err, str, num, end}
use k8s_chaos.Api.{ChaosExperiment, Pod}
use k8s_chaos.Client.{M, ◌>>=◌, ◌>>◌, return}
use k8s_chaos.Controller.Errors.{
  ErrorType, permission, execution, validation, timeout, unknown, wrap_k8s_error,
}
use k8s_chaos.Controller.Outcome.{Handled}
use k8s_chaos.Controller.Targets.{target_count}
use k8s_chaos.Controller.Handlers.Injection.{on_eligible_pods}
use k8s_chaos.Controller.Handlers.Containers.{in_first, in_first_container}
use k8s_chaos.Controller.Handlers.Common.{
  Reconciler, tracked, eligible_failure, attack_each, finish_pods,
}

abbrev pub no_eligible_pods_with_exclusions : String
no_eligible_pods_with_exclusions = "No eligible pods found matching selector (or all are excluded)"

abbrev pub type_name : ErrorType → String
type_name permission = "permission"
type_name execution = "execution"
type_name validation = "validation"
type_name timeout = "timeout"
type_name unknown = "unknown"

module _ {W : Type 0} (r : Reconciler W) where
  open r.client use {now, shuffle, event, metric, delete_pod, exec_in_pod}

  unfoldable pub count_error : ChaosExperiment → String → GoError → String → M W (Unit {0})
  count_error exp action e operation =
      metric "chaosexperiment_errors_total"
        (action
          ∷ exp.spec.namespace
          ∷ type_name (wrap_k8s_error r.sprintf e operation).error_type
          ∷ [])
        1

  -- One round of the loop of `handlePodKill`.
  unfoldable pub kill_pod : ChaosExperiment → Pod → M W (Option String)
  unfolding count_error
  kill_pod exp pod = do
    event "Warning" "ChaosPodKill" (fmt "Pod killed by chaos experiment %s" (str exp.name end))
    deleted ← delete_pod pod
    elim deleted [
      | err e ↦ do count_error exp "pod-kill" e "delete pod"; return none
      | ok _ ↦ return (some pod.name)
    ]

  unfoldable pub kill_container_process : Pod → M W (Result (Unit {0}))
  unfolding in_first
  kill_container_process pod =
      in_first_container r pod
        (λ name. exec_in_pod pod.namespace pod.name name ("kill" ∷ "-9" ∷ "1" ∷ []))

  -- One round of the loop of `handlePodFailure`.
  unfoldable pub crash_pod : ChaosExperiment → Pod → M W (Option String)
  unfolding kill_container_process count_error
  crash_pod exp pod = do
    killed ← kill_container_process pod
    elim killed [
      | err e ↦ do count_error exp "pod-failure" e "exec pod"; return none
      | ok _ ↦ do
        event "Warning" "ChaosPodFailure"
            (fmt "Caused container failure by chaos experiment %s" (str exp.name end))
        return (some pod.name)
    ]

  -- Shuffle, choose `count` pods, and attack them one after the other.
  unfoldable pub attack_pods :
      ChaosExperiment → (Pod → M W (Option String)) → List Pod → M W (List String)
  attack_pods exp attack eligible = do
    shuffled ← shuffle eligible
    attack_each r attack (take (target_count exp.spec shuffled) shuffled)

  unfoldable pub kill_pods : ChaosExperiment → ℕ → List Pod → M W Handled
  unfolding kill_pod attack_pods
  kill_pods exp started eligible = do
    killed ← attack_pods exp (kill_pod exp) eligible
    finish_pods r exp "pod-kill" "failed to kill any pods"
        (λ names. fmt "Successfully killed %d pod(s)" (num (length names) end)) "deleted" started
        killed

  unfoldable pub handle_pod_kill : ChaosExperiment → M W Handled
  unfolding kill_pods on_eligible_pods
  handle_pod_kill exp = do
    started ← now
    tracked r "pod-kill" (
        on_eligible_pods r exp (eligible_failure r exp "listing pods for pod-kill")
          no_eligible_pods_with_exclusions "delete" (kill_pods exp started))

  unfoldable pub crash_pods : ChaosExperiment → ℕ → List Pod → M W Handled
  unfolding crash_pod attack_pods
  crash_pods exp started eligible = do
    crashed ← attack_pods exp (crash_pod exp) eligible
    finish_pods r exp "pod-failure" "failed to cause container failure in any pods"
        (λ names. fmt "Successfully caused container failure in %d pod(s)" (num (length names) end))
        "process-killed" started crashed

  unfoldable pub handle_pod_failure : ChaosExperiment → M W Handled
  unfolding crash_pods on_eligible_pods
  handle_pod_failure exp = do
    started ← now
    tracked r "pod-failure" (
        on_eligible_pods r exp (eligible_failure r exp "listing pods for pod-failure")
          no_eligible_pods_with_exclusions "cause container failure in" (crash_pods exp started))
