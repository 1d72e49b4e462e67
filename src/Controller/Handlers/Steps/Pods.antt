-- ===== src/Controller/Handlers/Steps/Pods.antt =====
-- internal/controller/chaosexperiment_controller.go: the handlers that work on pods are steps.
use k8s_chaos.Prelude.{inl, inr, Bool-cases, ℕ, refl, List}
use k8s_chaos.Go.{Message, GoError, Result, ok, err}
use k8s_chaos.Controller.Failure.{is_permission_denied_error}
use k8s_chaos.Controller.Handlers.Requirements.{Checked, refused, accepted}
use k8s_chaos.Api.{ChaosExperiment, Pod}
use k8s_chaos.Controller.Handlers.Common.{Reconciler}
use k8s_chaos.Controller.Handlers.Pods.{handle_pod_kill, kill_pods, handle_pod_failure, crash_pods}
use k8s_chaos.Controller.Handlers.Stress.{handle_pod_cpu_stress, handle_pod_memory_stress}
use k8s_chaos.Controller.Handlers.Network.{
  handle_pod_network_loss, handle_pod_network_corruption, handle_network_partition,
}
use k8s_chaos.Controller.Handlers.Disk.{handle_pod_disk_fill}
use k8s_chaos.Controller.Handlers.Restart.{restart_paced, restart_eligible, handle_pod_restart}
use k8s_chaos.Controller.Handlers.Delay.{
  delay_failure, delay_checked, delay_eligible, handle_pod_delay,
}
use k8s_chaos.Controller.Machine.{stays}
use k8s_chaos.Controller.Handlers.Steps.{
  Steps, handle_experiment_failure-Steps, denied_outcome-Steps, eligible_failure-Steps,
  finish_pods-Steps,
}
use k8s_chaos.Controller.Handlers.Steps.Injected.{
  injected-Steps, require-Steps, conclude-Steps, untracked-Tracked, unchanged-After,
  with_message-After, on_eligible_pods-Steps,
}

module _ {W : Type 0} (r : Reconciler W) (exp : ChaosExperiment) where
  pub handle_pod_kill-Steps : Steps exp (handle_pod_kill r exp)
  unfolding handle_pod_kill kill_pods
  handle_pod_kill-Steps =
      search (on_eligible_pods-Steps r, eligible_failure-Steps r, finish_pods-Steps r)

  pub handle_pod_failure-Steps : Steps exp (handle_pod_failure r exp)
  unfolding handle_pod_failure crash_pods
  handle_pod_failure-Steps =
      search (on_eligible_pods-Steps r, eligible_failure-Steps r, finish_pods-Steps r)

  pub handle_pod_cpu_stress-Steps : Steps exp (handle_pod_cpu_stress r exp)
  unfolding handle_pod_cpu_stress
  handle_pod_cpu_stress-Steps =
      search (require-Steps r, on_eligible_pods-Steps r, eligible_failure-Steps r, injected-Steps r)

  pub handle_pod_memory_stress-Steps : Steps exp (handle_pod_memory_stress r exp)
  unfolding handle_pod_memory_stress
  handle_pod_memory_stress-Steps =
      search (require-Steps r, on_eligible_pods-Steps r, injected-Steps r, unchanged-After exp)

  pub handle_pod_network_loss-Steps : Steps exp (handle_pod_network_loss r exp)
  unfolding handle_pod_network_loss
  handle_pod_network_loss-Steps =
      search (require-Steps r, on_eligible_pods-Steps r, injected-Steps r, unchanged-After exp)

  pub handle_pod_network_corruption-Steps : Steps exp (handle_pod_network_corruption r exp)
  unfolding handle_pod_network_corruption
  handle_pod_network_corruption-Steps =
      search (require-Steps r, on_eligible_pods-Steps r, injected-Steps r, unchanged-After exp)

  pub handle_network_partition-Steps : Steps exp (handle_network_partition r exp)
  unfolding handle_network_partition
  handle_network_partition-Steps =
      search (require-Steps r, on_eligible_pods-Steps r, injected-Steps r, unchanged-After exp)

  pub handle_pod_disk_fill-Steps : Steps exp (handle_pod_disk_fill r exp)
  unfolding handle_pod_disk_fill
  handle_pod_disk_fill-Steps =
      search (require-Steps r, on_eligible_pods-Steps r, injected-Steps r, unchanged-After exp)

  restart_paced-Steps :
      (started : ℕ) (eligible : List Pod) (interval : Result ℕ)
      → Steps exp (restart_paced r exp started eligible interval)
  unfolding restart_paced
  restart_paced-Steps started eligible (err e) = search (handle_experiment_failure-Steps r)
  restart_paced-Steps started eligible (ok interval) = search (finish_pods-Steps r)

  restart_eligible-Steps :
      (started : ℕ) (eligible : List Pod) → Steps exp (restart_eligible r exp started eligible)
  unfolding restart_eligible
  restart_eligible-Steps started eligible = restart_paced-Steps started eligible _

  pub handle_pod_restart-Steps : Steps exp (handle_pod_restart r exp)
  unfolding handle_pod_restart
  handle_pod_restart-Steps =
      search (on_eligible_pods-Steps r, eligible_failure-Steps r, restart_eligible-Steps)

  delay_failure-Steps : (e : GoError) → Steps exp (delay_failure r exp e)
  unfolding delay_failure
  delay_failure-Steps e w = elim (Bool-cases (is_permission_denied_error e)) [
    | inl b ↦ rw (delay_failure, b) (denied_outcome-Steps r exp _ e w)
    | inr b ↦ rw (delay_failure, b) (record { step = stays _; kept = refl })
  ]

  delay_eligible-Steps : (started delay_ms : ℕ) → Steps exp (delay_eligible r exp started delay_ms)
  unfolding delay_eligible
  delay_eligible-Steps started delay_ms =
      search
        (on_eligible_pods-Steps r, delay_failure-Steps, conclude-Steps r exp exp, untracked-Tracked)

  delayed-Steps :
      (started : ℕ) (checked : Checked Message ℕ) → Steps exp (delay_checked r exp started checked)
  unfolding delay_checked
  delayed-Steps started (refused text) w = with_message-After exp text
  delayed-Steps started (accepted delay_ms) w = delay_eligible-Steps started delay_ms w

  pub handle_pod_delay-Steps : Steps exp (handle_pod_delay r exp)
  unfolding handle_pod_delay
  handle_pod_delay-Steps = search (delayed-Steps)
