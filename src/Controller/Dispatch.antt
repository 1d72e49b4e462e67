-- ===== src/Controller/Dispatch.antt =====
-- internal/controller/chaosexperiment_controller.go: the `switch` of `Reconcile` on the action.
pub mod Progress
pub mod DryRun
pub mod Targeted
pub mod Framed
use Prim.Native.String
use k8s_chaos.Prelude.{◌==◌, if◌then◌else◌}
use k8s_chaos.Go.{lit}
use k8s_chaos.Api.{ChaosExperiment}
use k8s_chaos.Client.{M, ◌>>=◌, ◌>>◌, return}
use k8s_chaos.Controller.Outcome.{Handled, done}
use k8s_chaos.Controller.Handlers.Common.{Reconciler, with_message}
use k8s_chaos.Controller.Handlers.Pods.{handle_pod_kill, handle_pod_failure}
use k8s_chaos.Controller.Handlers.Nodes.{handle_node_drain, handle_node_taint}
use k8s_chaos.Controller.Handlers.Delay.{handle_pod_delay}
use k8s_chaos.Controller.Handlers.Stress.{handle_pod_cpu_stress, handle_pod_memory_stress}
use k8s_chaos.Controller.Handlers.Network.{
  handle_pod_network_loss, handle_pod_network_corruption, handle_network_partition,
}
use k8s_chaos.Controller.Handlers.Disk.{handle_pod_disk_fill}
use k8s_chaos.Controller.Handlers.Restart.{handle_pod_restart}
use k8s_chaos.Controller.Handlers.HostPods.{handle_node_cpu_stress, handle_node_disk_fill}

module _ {W : Type 0} (r : Reconciler W) where
  open r.client use {update_status}

  unfoldable pub unsupported : ChaosExperiment → M W Handled
  unsupported exp = do
    let exp' = with_message exp (lit (String.◌++◌ "Error: Unsupported action: " exp.spec.action))
    update_status exp'
    return (done, exp')

  -- The `switch` on the action.
  unfoldable pub dispatch : ChaosExperiment → M W Handled
  unfolding unsupported
  dispatch exp =
      if exp.spec.action == "pod-kill"
      then handle_pod_kill r exp
      else if exp.spec.action == "pod-delay"
      then handle_pod_delay r exp
      else if exp.spec.action == "node-drain"
      then handle_node_drain r exp
      else if exp.spec.action == "node-taint"
      then handle_node_taint r exp
      else if exp.spec.action == "node-cpu-stress"
      then handle_node_cpu_stress r exp
      else if exp.spec.action == "node-disk-fill"
      then handle_node_disk_fill r exp
      else if exp.spec.action == "pod-cpu-stress"
      then handle_pod_cpu_stress r exp
      else if exp.spec.action == "pod-memory-stress"
      then handle_pod_memory_stress r exp
      else if exp.spec.action == "pod-failure"
      then handle_pod_failure r exp
      else if exp.spec.action == "pod-restart"
      then handle_pod_restart r exp
      else if exp.spec.action == "pod-network-loss"
      then handle_pod_network_loss r exp
      else if exp.spec.action == "pod-network-corruption"
      then handle_pod_network_corruption r exp
      else if exp.spec.action == "network-partition"
      then handle_network_partition r exp
      else if exp.spec.action == "pod-disk-fill"
      then handle_pod_disk_fill r exp
      else unsupported exp
