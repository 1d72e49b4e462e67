-- ===== src/Controller/Handlers/Delay.antt =====
-- internal/controller/chaosexperiment_controller.go: `handlePodDelay`.
use k8s_chaos.Prelude.{ℕ, String, Option, none, some, true, length, if◌then◌else◌}
use k8s_chaos.Go.{Message, fmt, GoError, error_text, ok, err, str, num, msg, end}
use k8s_chaos.Api.{ChaosExperiment, Pod}
use k8s_chaos.Client.{M, ◌>>=◌, ◌>>◌, return}
use k8s_chaos.Controller.Outcome.{Handled, done, failed_with}
use k8s_chaos.Controller.Failure.{is_permission_denied_error, handle_permission_denied}
use k8s_chaos.Controller.Handlers.Common.{Reconciler, with_message, outcome_of, tracked}
use k8s_chaos.Controller.Handlers.Pods.{attack_pods, no_eligible_pods_with_exclusions}
use k8s_chaos.Controller.Handlers.Containers.{apply_network_delay}
use k8s_chaos.Controller.Handlers.Requirements.{Checked, refused, accepted, delay_requirements}
use k8s_chaos.Controller.Handlers.Conclusion.{conclude, left_alone}
use k8s_chaos.Controller.Handlers.Injection.{on_eligible_pods}

module _ {W : Type 0} (r : Reconciler W) where
  open r.client use {now, event, update_status}

  -- An error of the search for pods: its text becomes the message, and it is returned.
  unfoldable pub delay_failure : ChaosExperiment → GoError → M W Handled
  delay_failure exp e =
      if is_permission_denied_error e
      then (do
        denied ← handle_permission_denied r.client exp "listing pods for pod-delay" e
        return (outcome_of denied))
      else do
        let exp' =
            with_message exp (fmt "Error: Failed to get eligible pods: %v" (msg (error_text e) end))
        update_status exp'
        return (failed_with e, exp')

  -- One round of the loop.
  unfoldable pub delay_pod : ChaosExperiment → ℕ → Pod → M W (Option String)
  delay_pod exp delay_ms pod = do
    applied ← apply_network_delay r pod delay_ms
    elim applied [
      | err _ ↦ return none
      | ok _ ↦ do
        event "Warning" "ChaosPodNetworkDelay" (
            fmt "Injected %dms network delay by chaos experiment %s"
              (num delay_ms (str exp.name end)))
        return (some pod.name)
    ]

  unfoldable pub delay_eligible : ChaosExperiment → ℕ → ℕ → M W Handled
  unfolding delay_failure delay_pod on_eligible_pods attack_pods conclude
  delay_eligible exp started delay_ms =
      on_eligible_pods r exp (delay_failure exp) no_eligible_pods_with_exclusions
        (r.sprintf (fmt "add %dms network delay to" (num delay_ms end)))
        (λ eligible. do
          hits ← attack_pods r exp (delay_pod exp delay_ms) eligible
          conclude r exp
              (record {
                action = "pod-delay";
                verb = r.sprintf (fmt "network-delay-%dms" (num delay_ms end));
                namespace = exp.spec.namespace;
                kind = "Pod";
                summary = λ names.
                    fmt "Successfully added %dms delay to %d pod(s)"
                      (num delay_ms (num (length names) end));
                failure = "Failed to add delay to any pods";
                retries = left_alone;
                explained = true;
              })
              started hits)

  -- What is refused is not retried: the message is stored, whether or not that succeeds.
  unfoldable pub delay_checked : ChaosExperiment → ℕ → Checked Message ℕ → M W Handled
  unfolding delay_eligible
  delay_checked exp started (refused text) = do
    update_status (with_message exp text)
    return (done, with_message exp text)
  delay_checked exp started (accepted delay_ms) = delay_eligible exp started delay_ms

  unfoldable pub handle_pod_delay : ChaosExperiment → M W Handled
  unfolding delay_requirements delay_checked
  handle_pod_delay exp = do
    started ← now
    tracked r "pod-delay" (delay_checked exp started (delay_requirements exp.spec))
