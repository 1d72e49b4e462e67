-- ===== src/Controller/Dispatch/DryRun.antt =====
-- internal/controller/chaosexperiment_controller.go: what a dry run leaves alone, whatever the action.
use k8s_chaos.Prelude.{inl, inr, Bool-cases, ℕ, ◌≡◌, String, List, [], ◌∷◌, true, arith}
use k8s_chaos.Go.{Message, lit, fmt, msg, end, error_text, GoError, Result, ok, err}
use k8s_chaos.Api.{ChaosExperiment, Node}
use k8s_chaos.Client.{M}
use k8s_chaos.Controller.Frame.{Keeps, Harmless, if-keeps, if-keeps-true}
use k8s_chaos.Controller.Errors.{ChaosError}
use k8s_chaos.Controller.Failure.{is_permission_denied_error}
use k8s_chaos.Controller.Outcome.{Handled}
use k8s_chaos.Controller.Handlers.Common.{Reconciler}
use k8s_chaos.Controller.Handlers.Requirements.{Checked, refused, accepted}
use k8s_chaos.Controller.Handlers.Injection.{require}
use k8s_chaos.Controller.Handlers.Steps.Injected.{with_message-After}
use k8s_chaos.Controller.Handlers.Steps.Nodes.{previewed-After}
use k8s_chaos.Controller.Handlers.Pods.{handle_pod_kill, handle_pod_failure}
use k8s_chaos.Controller.Handlers.Stress.{handle_pod_cpu_stress, handle_pod_memory_stress}
use k8s_chaos.Controller.Handlers.Network.{
  handle_pod_network_loss, handle_pod_network_corruption, handle_network_partition,
}
use k8s_chaos.Controller.Handlers.Disk.{handle_pod_disk_fill}
use k8s_chaos.Controller.Handlers.Restart.{handle_pod_restart}
use k8s_chaos.Controller.Handlers.Delay.{
  delay_failure, delay_eligible, delay_checked, handle_pod_delay,
}
use k8s_chaos.Controller.Handlers.Nodes.{
  list_failure, preview_nodes, on_matching, taint_matching, handle_node_drain, handle_node_taint,
}
use k8s_chaos.Controller.Handlers.HostPods.{
  on_listed, on_nodes, handle_node_cpu_stress, handle_node_disk_fill,
}
use k8s_chaos.Controller.Handlers.DryRun.{
  nothing_found-Keeps, handle_experiment_failure-Keeps, handle_permission_denied-Keeps,
  eligible_failure-Keeps, on_eligible_pods-previews,
}
use k8s_chaos.Controller.Dispatch.{dispatch, unsupported}

module _ {W : Type 0} (r : Reconciler W) (P : W → Type 0) (exp : ChaosExperiment)
    (h : Harmless r.client P exp) where
  pub require-Keeps :
      {A : Type 0} (checked : Checked ChaosError A) (next : A → M W Handled)
      → ((a : A) → Keeps P (next a))
      → Keeps P (require r exp checked next)
  unfolding require
  require-Keeps (refused ce) next k = handle_experiment_failure-Keeps r P exp h ce
  require-Keeps (accepted a) next k = k a

  pub delay_failure-Keeps : (e : GoError) → Keeps P (delay_failure r exp e)
  unfolding delay_failure
  delay_failure-Keeps e w p =
      let text = fmt "Error: Failed to get eligible pods: %v" (msg (error_text e) end) in
      let u = h.update_status _ (with_message-After exp text) w p in
      grind (arith, handle_permission_denied-Keeps r P exp h, u)

  pub preview_nodes-Keeps :
      (summary : ℕ → List String → Message) (nodes : List Node)
      → Keeps P (preview_nodes r exp summary nodes)
  unfolding preview_nodes
  preview_nodes-Keeps summary nodes w p =
      let (t, w1) = r.client.now w in
      let u = h.update_status _ (previewed-After r exp summary nodes t) w1 (h.quiet.now w p) in
      ground (arith, u)

  pub list_failure-Keeps :
      (operation : String) (e : GoError) → Keeps P (list_failure r exp operation e)
  unfolding list_failure
  list_failure-Keeps operation e w p =
      let u = h.update_status _ (with_message-After exp (lit "Error: Failed to list nodes")) w p in
      grind (arith, handle_permission_denied-Keeps r P exp h, u)

  pub unsupported-Keeps : Keeps P (unsupported r exp)
  unfolding unsupported
  unsupported-Keeps = h.update_status _ (with_message-After exp _)

  module _ (dry : exp.spec.dry_run ≡ true)
      (lists : (selector : List (String × String)) → Keeps P (r.client.list_nodes selector)) where
    delay_eligible-previews :
        (started delay_ms : ℕ) → Keeps P (delay_eligible r exp started delay_ms)
    unfolding delay_eligible
    delay_eligible-previews started delay_ms =
        search (on_eligible_pods-previews r P exp h, delay_failure-Keeps, dry)

    delay_checked-previews :
        (started : ℕ) (checked : Checked Message ℕ) → Keeps P (delay_checked r exp started checked)
    unfolding delay_checked
    delay_checked-previews started (refused text) = h.update_status _ (with_message-After exp text)
    delay_checked-previews started (accepted delay_ms) = delay_eligible-previews started delay_ms

    handle_pod_delay-previews : Keeps P (handle_pod_delay r exp)
    unfolding handle_pod_delay
    handle_pod_delay-previews = search (h.quiet.now, h.quiet.track, delay_checked-previews)

    handle_pod_cpu_stress-previews : Keeps P (handle_pod_cpu_stress r exp)
    unfolding handle_pod_cpu_stress
    handle_pod_cpu_stress-previews = search (
      h.quiet.now,
      h.quiet.track,
      require-Keeps,
      on_eligible_pods-previews r P exp h,
      eligible_failure-Keeps r P exp h,
      dry,
    )

    handle_pod_memory_stress-previews : Keeps P (handle_pod_memory_stress r exp)
    unfolding handle_pod_memory_stress
    handle_pod_memory_stress-previews =
        search (h.quiet.now, h.quiet.track, require-Keeps, on_eligible_pods-previews r P exp h, dry)

    handle_pod_network_loss-previews : Keeps P (handle_pod_network_loss r exp)
    unfolding handle_pod_network_loss
    handle_pod_network_loss-previews =
        search (h.quiet.now, h.quiet.track, require-Keeps, on_eligible_pods-previews r P exp h, dry)

    handle_pod_network_corruption-previews : Keeps P (handle_pod_network_corruption r exp)
    unfolding handle_pod_network_corruption
    handle_pod_network_corruption-previews =
        search (h.quiet.now, h.quiet.track, require-Keeps, on_eligible_pods-previews r P exp h, dry)

    handle_network_partition-previews : Keeps P (handle_network_partition r exp)
    unfolding handle_network_partition
    handle_network_partition-previews =
        search (h.quiet.now, h.quiet.track, require-Keeps, on_eligible_pods-previews r P exp h, dry)

    handle_pod_disk_fill-previews : Keeps P (handle_pod_disk_fill r exp)
    unfolding handle_pod_disk_fill
    handle_pod_disk_fill-previews =
        search (h.quiet.now, h.quiet.track, require-Keeps, on_eligible_pods-previews r P exp h, dry)

    handle_pod_restart-previews : Keeps P (handle_pod_restart r exp)
    unfolding handle_pod_restart
    handle_pod_restart-previews = search (
      h.quiet.now,
      h.quiet.track,
      on_eligible_pods-previews r P exp h,
      eligible_failure-Keeps r P exp h,
      dry,
    )

    handle_pod_kill-previews : Keeps P (handle_pod_kill r exp)
    unfolding handle_pod_kill
    handle_pod_kill-previews = search (
      h.quiet.now,
      h.quiet.track,
      on_eligible_pods-previews r P exp h,
      eligible_failure-Keeps r P exp h,
      dry,
    )

    handle_pod_failure-previews : Keeps P (handle_pod_failure r exp)
    unfolding handle_pod_failure
    handle_pod_failure-previews = search (
      h.quiet.now,
      h.quiet.track,
      on_eligible_pods-previews r P exp h,
      eligible_failure-Keeps r P exp h,
      dry,
    )

    on_matching-previews :
        (listing : String) (summary : ℕ → List String → Message) (attack : List Node → M W Handled)
        (listed : Result (List Node))
        → Keeps P (on_matching r exp listing summary attack listed)
    unfolding on_matching
    on_matching-previews listing summary attack (err e) w p = list_failure-Keeps listing e w p
    on_matching-previews listing summary attack (ok []) w p = nothing_found-Keeps r P exp h _ w p
    on_matching-previews listing summary attack (ok (n ∷ ns)) w p =
        if-keeps-true P (preview_nodes r exp summary (n ∷ ns)) _ dry w
          (preview_nodes-Keeps summary (n ∷ ns) w p)

    handle_node_drain-previews : Keeps P (handle_node_drain r exp)
    unfolding handle_node_drain
    handle_node_drain-previews = search (h.quiet.now, h.quiet.track, lists, on_matching-previews)

    taint_matching-previews : (started : ℕ) → Keeps P (taint_matching r exp started)
    unfolding taint_matching
    taint_matching-previews started = search (lists, on_matching-previews)

    handle_node_taint-previews : Keeps P (handle_node_taint r exp)
    unfolding handle_node_taint
    handle_node_taint-previews = search (
      h.quiet.now,
      h.quiet.track,
      if-keeps P,
      handle_experiment_failure-Keeps r P exp h,
      taint_matching-previews,
    )

    on_listed-previews :
        (listing operation : String) (summary : ℕ → List String → Message)
        (attack : List Node → M W Handled) (listed : Result (List Node))
        → Keeps P (on_listed r exp listing operation summary attack listed)
    unfolding on_listed
    on_listed-previews listing operation summary attack (err e) w p =
        elim (Bool-cases (is_permission_denied_error e)) [
          | inl b ↦ rw (on_listed, b) (handle_permission_denied-Keeps r P exp h listing e w p)
          | inr b ↦ rw (on_listed, b) (handle_experiment_failure-Keeps r P exp h _ w p)
        ]
    on_listed-previews listing operation summary attack (ok []) w p =
        nothing_found-Keeps r P exp h _ w p
    on_listed-previews listing operation summary attack (ok (n ∷ ns)) w p =
        if-keeps-true P (preview_nodes r exp summary (n ∷ ns)) _ dry w
          (preview_nodes-Keeps summary (n ∷ ns) w p)

    on_nodes-previews :
        (listing operation : String) (summary : ℕ → List String → Message)
        (attack : List Node → M W Handled)
        → Keeps P (on_nodes r exp listing operation summary attack)
    unfolding on_nodes
    on_nodes-previews listing operation summary attack = search (lists, on_listed-previews)

    handle_node_cpu_stress-previews : Keeps P (handle_node_cpu_stress r exp)
    unfolding handle_node_cpu_stress
    handle_node_cpu_stress-previews =
        search (h.quiet.now, h.quiet.track, require-Keeps, on_nodes-previews)

    handle_node_disk_fill-previews : Keeps P (handle_node_disk_fill r exp)
    unfolding handle_node_disk_fill
    handle_node_disk_fill-previews =
        search (h.quiet.now, h.quiet.track, require-Keeps, on_nodes-previews)

    -- A dry run keeps whatever the clock, events, metrics, status updates and the reads of the namespace,
    -- of its pods and of the nodes keep, whatever its action: it deletes, evicts and creates no pod,
    -- injects no container, runs no command in a pod and updates no node.
    pub dispatch-previews : Keeps P (dispatch r exp)
    unfolding dispatch
    dispatch-previews =
        search
          (
            if-keeps P,
            handle_pod_kill-previews,
            handle_pod_delay-previews,
            handle_node_drain-previews,
            handle_node_taint-previews,
            handle_node_cpu_stress-previews,
            handle_node_disk_fill-previews,
            handle_pod_cpu_stress-previews,
            handle_pod_memory_stress-previews,
            handle_pod_failure-previews,
            handle_pod_restart-previews,
            handle_pod_network_loss-previews,
            handle_pod_network_corruption-previews,
            handle_network_partition-previews,
            handle_pod_disk_fill-previews,
            unsupported-Keeps,
          )
          depth 20
