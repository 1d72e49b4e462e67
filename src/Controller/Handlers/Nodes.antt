-- ===== src/Controller/Handlers/Nodes.antt =====
-- internal/controller/chaosexperiment_controller.go: `handleNodeDrain` and `handleNodeTaint`.
use k8s_chaos.Prelude.{
  true, ℕ, String, List, [], ◌∷◌, ◌++◌, ◌||◌, any, length, map, take, if◌then◌else◌, ◌==◌,
}
use k8s_chaos.Go.{Message, lit, fmt, GoError, Result, ok, err, errorf, str, num, strs, end}
use k8s_chaos.Api.{ChaosExperiment, Node}
use k8s_chaos.Client.{M, ◌>>=◌, ◌>>◌, return}
use k8s_chaos.Controller.Errors.{validation, of_type}
use k8s_chaos.Controller.Outcome.{Handled, done, failed_with, phase_completed}
use k8s_chaos.Controller.Failure.{
  is_permission_denied_error, handle_experiment_failure, handle_permission_denied,
}
use k8s_chaos.Controller.Targets.{target_count}
use k8s_chaos.Controller.Nodes.{cordon_node, drain_node, taint_node}
use k8s_chaos.Controller.Handlers.Conclusion.{conclude, left_alone}
use k8s_chaos.Controller.Handlers.Common.{
  Reconciler, with_message, with_run, outcome_of, tracked, nothing_found,
}

-- What the loop over the nodes has collected: the nodes done, and those that were changed by it.
pub record Progress : Type 0 where
  pub reached : List String
  pub changed : List String

-- The names that are not in the list yet are appended; the lookup is in the list as it was.
unfoldable pub merge_names : List String → List String → List String
merge_names existing new = existing ++ new_names new
  where
    new_names : List String → List String
    new_names [] = []
    new_names (n ∷ ns) =
        let rest = new_names ns in if any (λ e. e == n) existing then rest else n ∷ rest

-- The nodes that were changed are kept in the status.
unfoldable pub note_cordoned : ChaosExperiment → List String → ChaosExperiment
unfolding merge_names
note_cordoned exp changed = record exp {
  status = record (exp.status) { cordoned_nodes = merge_names exp.status.cordoned_nodes changed };
}

unfoldable pub note_tainted : ChaosExperiment → List String → ChaosExperiment
unfolding merge_names
note_tainted exp changed = record exp {
  status = record (exp.status) { tainted_nodes = merge_names exp.status.tainted_nodes changed };
}

module _ {W : Type 0} (r : Reconciler W) where
  open r.client use {now, shuffle_nodes, event, list_nodes, update_status}

  -- An error of the listing: the status is stored where permission is not the reason.
  unfoldable pub list_failure : ChaosExperiment → String → GoError → M W Handled
  list_failure exp operation e =
      if is_permission_denied_error e
      then (do
        denied ← handle_permission_denied r.client exp operation e
        return (outcome_of denied))
      else do
        let exp' = with_message exp (lit "Error: Failed to list nodes")
        update_status exp'
        return (failed_with e, exp')

  -- The experiment behind a dry run.
  unfoldable pub previewed :
      ChaosExperiment → (ℕ → List String → Message) → List Node → ℕ → ChaosExperiment
  previewed exp summary nodes t =
      let count = target_count exp.spec nodes in
      let names = map (λ (n : Node). n.name) (take count nodes) in
      let run = with_run exp t (summary count names) in
      record run { status = record (run.status) { phase = phase_completed } }

  unfoldable pub preview_nodes :
      ChaosExperiment → (ℕ → List String → Message) → List Node → M W Handled
  unfolding previewed
  preview_nodes exp summary nodes = do
    t ← now
    let exp' = previewed exp summary nodes t
    updated ← update_status exp'
    elim updated [ err e ↦ return (failed_with e, exp') | ok _ ↦ return (done, exp') ]

  -- One node is cordoned and drained. One that cannot be drained has been changed all the same.
  unfoldable pub drain_one : ChaosExperiment → Node → Progress → M W Progress
  drain_one exp node p = do
    cordoned ← cordon_node r.client node
    elim cordoned [
      | err _ ↦ return p
      | ok was ↦ do
        let p' = if was then p else record p { changed = p.changed ++ node.name ∷ [] }
        drained ← drain_node r.client node
        elim drained [
          | err _ ↦ return p'
          | ok _ ↦ do
            event "Warning" "ChaosNodeDrain"
                (fmt "Node drained by chaos experiment %s" (str exp.name end))
            return (record p' { reached = p'.reached ++ node.name ∷ [] })
        ]
    ]

  unfoldable pub taint_one : ChaosExperiment → Node → Progress → M W Progress
  taint_one exp node p = do
    tainted ← taint_node r.client node exp.spec.taint_key exp.spec.taint_value exp.spec.taint_effect
    elim tainted [
      | err _ ↦ return p
      | ok was ↦ do
        let p' = if was then p else record p { changed = p.changed ++ node.name ∷ [] }
        event "Warning" "ChaosNodeTaint" (
            fmt "Node tainted with %s=%s:%s by chaos experiment %s" (
              str exp.spec.taint_key
                (str exp.spec.taint_value (str exp.spec.taint_effect (str exp.name end)))))
        return (record p' { reached = p'.reached ++ node.name ∷ [] })
    ]

  unfoldable pub visit_nodes :
      (Node → Progress → M W Progress) → List Node → Progress → M W Progress
  visit_nodes visit [] p = return p
  visit_nodes visit (n ∷ ns) p = do p' ← visit n p; visit_nodes visit ns p'

  unfoldable pub choose_and_visit :
      ChaosExperiment → (Node → Progress → M W Progress) → List Node → M W Progress
  unfolding visit_nodes
  choose_and_visit exp visit nodes = do
    shuffled ← shuffle_nodes nodes
    visit_nodes visit (take (target_count exp.spec shuffled) shuffled)
        (record { reached = []; changed = [] })

  -- The end of both handlers.
  unfoldable pub finish_nodes :
      ChaosExperiment
      → (action verb failure : String) → (List String → Message)
      → ℕ
      → List String
      → M W Handled
  unfolding conclude
  finish_nodes exp action verb failure summary started reached =
      conclude r exp
        (record {
          action = action;
          verb = verb;
          namespace = "";
          kind = "Node";
          summary = summary;
          failure = failure;
          retries = left_alone;
          explained = true;
        })
        started reached

  -- What follows the listing, up to the end of the dry run; `attack` is the rest.
  unfoldable pub on_matching :
      ChaosExperiment
      → (listing : String) → (ℕ → List String → Message)
      → (List Node → M W Handled)
      → Result (List Node)
      → M W Handled
  unfolding list_failure preview_nodes
  on_matching exp listing summary attack (err e) = list_failure exp listing e
  on_matching exp listing summary attack (ok []) =
      nothing_found r exp "No nodes found matching selector"
  on_matching exp listing summary attack (ok (n ∷ ns)) =
      if exp.spec.dry_run then preview_nodes exp summary (n ∷ ns) else attack (n ∷ ns)

  -- The nodes are drained, and those that were cordoned for it are kept in the status.
  unfoldable pub drain_nodes : ChaosExperiment → ℕ → List Node → M W Handled
  unfolding drain_one choose_and_visit finish_nodes note_cordoned
  drain_nodes exp started nodes = do
    p ← choose_and_visit exp (drain_one exp) nodes
    finish_nodes (note_cordoned exp p.changed) "node-drain" "drained" "Failed to drain any nodes"
        (λ names. fmt "Successfully drained %d node(s): %v" (num (length names) (strs names end)))
        started p.reached

  unfoldable pub handle_node_drain : ChaosExperiment → M W Handled
  unfolding on_matching drain_nodes
  handle_node_drain exp = do
    started ← now
    tracked r "node-drain" (do
      listed ← list_nodes exp.spec.selector
      on_matching exp "listing nodes for node-drain"
          (λ count names.
            fmt "DRY RUN: Would cordon and drain %d node(s): %v" (num count (strs names end)))
          (drain_nodes exp started) listed)

  unfoldable pub taint_nodes : ChaosExperiment → ℕ → List Node → M W Handled
  unfolding taint_one choose_and_visit finish_nodes note_tainted
  taint_nodes exp started nodes = do
    p ← choose_and_visit exp (taint_one exp) nodes
    finish_nodes (note_tainted exp p.changed) "node-taint" "tainted" "Failed to taint any nodes"
        (λ names. fmt "Successfully tainted %d node(s): %v" (num (length names) (strs names end)))
        started p.reached

  -- What follows the check of the fields.
  unfoldable pub taint_matching : ChaosExperiment → ℕ → M W Handled
  unfolding on_matching taint_nodes
  taint_matching exp started = do
    listed ← list_nodes exp.spec.selector
    on_matching exp "listing nodes for node-taint"
        (λ count names.
          fmt "DRY RUN: Would taint %d node(s) with %s: %v"
            (num count (str exp.spec.taint_key (strs names end))))
        (taint_nodes exp started) listed

  unfoldable pub handle_node_taint : ChaosExperiment → M W Handled
  unfolding taint_matching
  handle_node_taint exp = do
    started ← now
    tracked r "node-taint" (
        if exp.spec.taint_key == "" || exp.spec.taint_effect == ""
        then handle_experiment_failure r.client exp
            (record (of_type (errorf "TaintKey and TaintEffect must be specified" end) validation) {
              operation = "validate node-taint config";
            })
        else taint_matching exp started)
