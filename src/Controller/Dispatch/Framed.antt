-- ===== src/Controller/Dispatch/Framed.antt =====
-- internal/controller/chaosexperiment_controller.go: what a run may do, whatever its action: the pods that
-- it attacks or evicts, and the statuses that it stores.
use k8s_chaos.Prelude.{ℕ, inl, inr, Bool-cases, String, List, [], ◌∷◌, Option, none, some}
use k8s_chaos.Go.{Message, Result, ok, err}
use k8s_chaos.Api.{ChaosExperiment, Node}
use k8s_chaos.Client.{M}
use k8s_chaos.Controller.Frame.{Keeps, if-keeps}
use k8s_chaos.Controller.Outcome.{Handled}
use k8s_chaos.Controller.Failure.{is_permission_denied_error}
use k8s_chaos.Controller.Handlers.Common.{Reconciler}
use k8s_chaos.Controller.Handlers.Conclusion.{Report}
use k8s_chaos.Controller.Handlers.Nodes.{
  on_matching, finish_nodes, drain_nodes, taint_nodes, taint_matching, handle_node_drain,
  handle_node_taint,
}
use k8s_chaos.Controller.Handlers.HostPods.{
  on_listed, on_nodes, report_deployed, deploy_on_nodes, handle_node_cpu_stress,
  handle_node_disk_fill,
}
use k8s_chaos.Controller.Handlers.Pods.{handle_pod_kill}
use k8s_chaos.Controller.Handlers.Steps.Injected.{Tracked, untracked-Tracked}
use k8s_chaos.Controller.Handlers.Steps.Nodes.{note_cordoned-Tracked, note_tainted-Tracked}
use k8s_chaos.Controller.Handlers.DryRun.{
  nothing_found-Keeps, handle_experiment_failure-Keeps, handle_permission_denied-Keeps,
}
use k8s_chaos.Controller.Handlers.Targeted.{handle_pod_kill-keeps}
use k8s_chaos.Controller.Handlers.NodeAttacks.{
  NodeAttacks, drains-Keeps, taints-Keeps, deploy_each-Keeps, deploy_node_cpu_stress_pod-Keeps,
  deploy_node_disk_fill_pod-Keeps,
}
use k8s_chaos.Controller.Targets.Eligible.{IsTarget}
use k8s_chaos.Api.{Pod}
use k8s_chaos.Controller.Dispatch.{dispatch}
use k8s_chaos.Controller.Dispatch.DryRun.{
  require-Keeps, preview_nodes-Keeps, list_failure-Keeps, unsupported-Keeps,
}
use k8s_chaos.Controller.Dispatch.Targeted.{Frame, conclude-Keeps}
use k8s_chaos.Controller.Dispatch.Targeted.Handlers.{
  handle_pod_failure-Keeps, handle_pod_restart-Keeps, handle_pod_delay-Keeps,
  handle_pod_cpu_stress-Keeps, handle_pod_memory_stress-Keeps, handle_pod_network_loss-Keeps,
  handle_pod_network_corruption-Keeps, handle_network_partition-Keeps, handle_pod_disk_fill-Keeps,
}

module _ {W : Type 0} (r : Reconciler W) (P : W → Type 0) (exp : ChaosExperiment)
    (f : Frame r P exp) (a : NodeAttacks r.client P) where
  on_matching-Keeps :
      (listing : String) (summary : ℕ → List String → Message) (attack : List Node → M W Handled)
      (listed : Result (List Node))
      → ((nodes : List Node) → Keeps P (attack nodes))
      → Keeps P (on_matching r exp listing summary attack listed)
  unfolding on_matching
  on_matching-Keeps listing summary attack (err e) k w p =
      list_failure-Keeps r P exp f.harmless listing e w p
  on_matching-Keeps listing summary attack (ok []) k w p =
      nothing_found-Keeps r P exp f.harmless _ w p
  on_matching-Keeps listing summary attack (ok (n ∷ ns)) k w p =
      if-keeps P exp.spec.dry_run _ _ w
        (preview_nodes-Keeps r P exp f.harmless summary (n ∷ ns) w p) (k (n ∷ ns) w p)

  finish_nodes-Keeps :
      (exp' : ChaosExperiment) (action verb failure : String) (summary : List String → Message)
      (started : ℕ) (reached : List String)
      → Tracked exp exp'
      → Keeps P (finish_nodes r exp' action verb failure summary started reached)
  unfolding finish_nodes
  finish_nodes-Keeps exp' action verb failure summary started reached t =
      search (conclude-Keeps r P exp f, t)

  drain_nodes-Keeps : (started : ℕ) (nodes : List Node) → Keeps P (drain_nodes r exp started nodes)
  unfolding drain_nodes
  drain_nodes-Keeps started nodes =
      search (drains-Keeps r P f.harmless.quiet a, finish_nodes-Keeps, note_cordoned-Tracked)

  handle_node_drain-Keeps : Keeps P (handle_node_drain r exp)
  unfolding handle_node_drain
  handle_node_drain-Keeps =
      search (
        f.harmless.quiet.now, f.harmless.quiet.track, a.lists, on_matching-Keeps, drain_nodes-Keeps,
      )

  taint_nodes-Keeps : (started : ℕ) (nodes : List Node) → Keeps P (taint_nodes r exp started nodes)
  unfolding taint_nodes
  taint_nodes-Keeps started nodes =
      search (taints-Keeps r P f.harmless.quiet a, finish_nodes-Keeps, note_tainted-Tracked)

  taint_matching-Keeps : (started : ℕ) → Keeps P (taint_matching r exp started)
  unfolding taint_matching
  taint_matching-Keeps started = search (a.lists, on_matching-Keeps, taint_nodes-Keeps)

  handle_node_taint-Keeps : Keeps P (handle_node_taint r exp)
  unfolding handle_node_taint
  handle_node_taint-Keeps = search (
    f.harmless.quiet.now,
    f.harmless.quiet.track,
    if-keeps P,
    handle_experiment_failure-Keeps r P exp f.harmless,
    taint_matching-Keeps,
  )

  on_listed-Keeps :
      (listing operation : String) (summary : ℕ → List String → Message)
      (attack : List Node → M W Handled) (listed : Result (List Node))
      → ((nodes : List Node) → Keeps P (attack nodes))
      → Keeps P (on_listed r exp listing operation summary attack listed)
  unfolding on_listed
  on_listed-Keeps listing operation summary attack (err e) k w p =
      elim (Bool-cases (is_permission_denied_error e)) [
        | inl b ↦
            rw (on_listed, b) (handle_permission_denied-Keeps r P exp f.harmless listing e w p)
        | inr b ↦ rw (on_listed, b) (handle_experiment_failure-Keeps r P exp f.harmless _ w p)
      ]
  on_listed-Keeps listing operation summary attack (ok []) k w p =
      nothing_found-Keeps r P exp f.harmless _ w p
  on_listed-Keeps listing operation summary attack (ok (n ∷ ns)) k w p =
      if-keeps P exp.spec.dry_run _ _ w
        (preview_nodes-Keeps r P exp f.harmless summary (n ∷ ns) w p) (k (n ∷ ns) w p)

  on_nodes-Keeps :
      (listing operation : String) (summary : ℕ → List String → Message)
      (attack : List Node → M W Handled)
      → ((nodes : List Node) → Keeps P (attack nodes))
      → Keeps P (on_nodes r exp listing operation summary attack)
  unfolding on_nodes
  on_nodes-Keeps listing operation summary attack k = search (a.lists, on_listed-Keeps, k)

  report_deployed-Keeps :
      (started : ℕ) (report : Report) (deployed : Option (List String))
      → Keeps P (report_deployed r exp started report deployed)
  unfolding report_deployed
  report_deployed-Keeps started report none w p = p
  report_deployed-Keeps started report (some reached) w p =
      conclude-Keeps r P exp f exp report started reached untracked-Tracked w p

  deploy_on_nodes-Keeps :
      (started : ℕ) (deploy_on : Node → M W (Result String)) (reason : String)
      (text : String → Message) (report : Report) (nodes : List Node)
      → ((node : Node) → Keeps P (deploy_on node))
      → Keeps P (deploy_on_nodes r exp started deploy_on reason text report nodes)
  unfolding deploy_on_nodes
  deploy_on_nodes-Keeps started deploy_on reason text report nodes k =
      search (a.shuffles, deploy_each-Keeps r P f.harmless.quiet a, k, report_deployed-Keeps)

  handle_node_cpu_stress-Keeps : Keeps P (handle_node_cpu_stress r exp)
  unfolding handle_node_cpu_stress
  handle_node_cpu_stress-Keeps =
      search
        (
          f.harmless.quiet.now,
          f.harmless.quiet.track,
          require-Keeps r P exp f.harmless,
          on_nodes-Keeps,
          deploy_on_nodes-Keeps,
          deploy_node_cpu_stress_pod-Keeps r P f.harmless.quiet a,
        )
        depth 12

  handle_node_disk_fill-Keeps : Keeps P (handle_node_disk_fill r exp)
  unfolding handle_node_disk_fill
  handle_node_disk_fill-Keeps =
      search
        (
          f.harmless.quiet.now,
          f.harmless.quiet.track,
          require-Keeps r P exp f.harmless,
          on_nodes-Keeps,
          deploy_on_nodes-Keeps,
          deploy_node_disk_fill_pod-Keeps r P f.harmless.quiet a,
        )
        depth 12

  module _ (deletes : (pod : Pod) → IsTarget pod → Keeps P (r.client.delete_pod pod)) where
    kill-Keeps : Keeps P (handle_pod_kill r exp)
    kill-Keeps =
        handle_pod_kill-keeps r P exp f.harmless f.records f.spawns f.shuffles f.rearranges deletes

    pub dispatch-Keeps : Keeps P (dispatch r exp)
    unfolding dispatch
    dispatch-Keeps =
        search
          (
            if-keeps P,
            kill-Keeps,
            handle_pod_delay-Keeps r P exp f,
            handle_node_drain-Keeps,
            handle_node_taint-Keeps,
            handle_node_cpu_stress-Keeps,
            handle_node_disk_fill-Keeps,
            handle_pod_cpu_stress-Keeps r P exp f,
            handle_pod_memory_stress-Keeps r P exp f,
            handle_pod_failure-Keeps r P exp f,
            handle_pod_restart-Keeps r P exp f,
            handle_pod_network_loss-Keeps r P exp f,
            handle_pod_network_corruption-Keeps r P exp f,
            handle_network_partition-Keeps r P exp f,
            handle_pod_disk_fill-Keeps r P exp f,
            unsupported-Keeps r P exp f.harmless,
          )
          depth 20
