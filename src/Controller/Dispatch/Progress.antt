-- ===== src/Controller/Dispatch/Progress.antt =====
-- internal/controller/chaosexperiment_controller.go: the `switch` of `Reconcile` is a step of the machine
-- of phases and retries.
use k8s_chaos.Prelude.{◌≤◌}
use k8s_chaos.Api.{ChaosExperiment}
use k8s_chaos.Controller.Outcome.{Handled}
use k8s_chaos.Controller.Failure.{effective_max_retries}
use k8s_chaos.Controller.Handlers.Common.{Reconciler}
use k8s_chaos.Controller.Machine.{After, RunStep-bounded}
use k8s_chaos.Controller.Handlers.Steps.{Steps, if-Ends}
use k8s_chaos.Controller.Handlers.Steps.Injected.{with_message-After}
use k8s_chaos.Controller.Handlers.Steps.Pods.{
  handle_pod_kill-Steps, handle_pod_failure-Steps, handle_pod_cpu_stress-Steps,
  handle_pod_memory_stress-Steps, handle_pod_network_loss-Steps,
  handle_pod_network_corruption-Steps, handle_network_partition-Steps, handle_pod_disk_fill-Steps,
  handle_pod_restart-Steps, handle_pod_delay-Steps,
}
use k8s_chaos.Controller.Handlers.Steps.Nodes.{
  handle_node_drain-Steps, handle_node_taint-Steps, handle_node_cpu_stress-Steps,
  handle_node_disk_fill-Steps,
}
use k8s_chaos.Controller.Dispatch.{dispatch, unsupported}

module _ {W : Type 0} (r : Reconciler W) (exp : ChaosExperiment) where
  abbrev Q : Handled → Type 0
  Q handled = After exp handled.1

  unsupported-Steps : Steps exp (unsupported r exp)
  unfolding unsupported
  unsupported-Steps w = with_message-After exp _

  -- Whatever its action and its environment, a run leaves the spec of the experiment as it is, and takes
  -- its phase and its number of retries by one of seven steps: both stay; the phase becomes Completed
  -- (after a dry run) or Failed, and the number stays; the phase stays, becomes Completed or becomes
  -- Running, and the number becomes 0; or, where the number is below the allowed one, the phase becomes
  -- Pending and the number grows by one.
  pub dispatch-Steps : Steps exp (dispatch r exp)
  unfolding dispatch
  dispatch-Steps =
      search
        (
          if-Ends Q,
          handle_pod_kill-Steps r,
          handle_pod_failure-Steps r,
          handle_pod_cpu_stress-Steps r,
          handle_pod_memory_stress-Steps r,
          handle_pod_network_loss-Steps r,
          handle_pod_network_corruption-Steps r,
          handle_network_partition-Steps r,
          handle_pod_disk_fill-Steps r,
          handle_pod_restart-Steps r,
          handle_pod_delay-Steps r,
          handle_node_drain-Steps r,
          handle_node_taint-Steps r,
          handle_node_cpu_stress-Steps r,
          handle_node_disk_fill-Steps r,
          unsupported-Steps,
        )
        depth 20

  -- A run never takes the number of retries beyond the number that the spec allows, which is 3 where the
  -- spec gives none.
  pub dispatch-bounded :
      (w : W)
      → exp.status.retry_count ≤ effective_max_retries exp
      → (dispatch r exp w).0.1.status.retry_count ≤ effective_max_retries (dispatch r exp w).0.1
  unfolding effective_max_retries
  dispatch-bounded w h =
      rw ((dispatch-Steps w).kept) (RunStep-bounded _ _ _ ((dispatch-Steps w).step) h)
