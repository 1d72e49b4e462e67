-- ===== src/Controller/Handlers/HostPods.antt =====
-- internal/controller/chaosexperiment_controller.go: `handleNodeCPUStress` and `handleNodeDiskFill`,
-- which create a pod on each of the nodes.
pub mod Panics
use k8s_chaos.Prelude.{
  ℕ, String, List, [], ◌∷◌, Option, none, some, true, length, take, ◌==◌, if◌then◌else◌,
}
use k8s_chaos.Go.{Message, fmt, Result, ok, err, wrapf, str, int, num, strs, end}
use k8s_chaos.Api.{ChaosExperiment, Node}
use k8s_chaos.Client.{M, ◌>>=◌, ◌>>◌, return}
use k8s_chaos.Controller.Errors.{execution, of_type}
use k8s_chaos.Controller.Outcome.{Handled, failed_with}
use k8s_chaos.Controller.Failure.{
  is_permission_denied_error, handle_experiment_failure, handle_permission_denied,
}
use k8s_chaos.Controller.Targets.{target_count}
use k8s_chaos.Controller.Handlers.Common.{Reconciler, outcome_of, tracked, nothing_found}
use k8s_chaos.Controller.Handlers.Nodes.{preview_nodes}
use k8s_chaos.Controller.Handlers.Containers.{positive_or}
use k8s_chaos.Controller.Handlers.Deployments.{
  deploy_node_cpu_stress_pod, deploy_node_disk_fill_pod,
}
use k8s_chaos.Controller.Handlers.Requirements.{
  node_cpu_stress_requirements, node_disk_fill_requirements,
}
use k8s_chaos.Controller.Handlers.Conclusion.{Report, conclude, reset_on_success}
use k8s_chaos.Controller.Handlers.Injection.{require}

-- `TargetPath`, which is "/tmp" by default.
unfoldable pub node_target_path : ChaosExperiment → String
node_target_path exp = if exp.spec.target_path == "" then "/tmp" else exp.spec.target_path

module _ {W : Type 0} (r : Reconciler W) where
  open r.client use {now, shuffle_nodes, event, list_nodes}

  -- What follows the listing, up to the end of the dry run; `attack` is the rest.
  unfoldable pub on_listed :
      ChaosExperiment
      → (listing operation : String) → (ℕ → List String → Message)
      → (List Node → M W Handled)
      → Result (List Node)
      → M W Handled
  on_listed exp listing operation summary attack (err e) =
      if is_permission_denied_error e
      then (do denied ← handle_permission_denied r.client exp listing e; return (outcome_of denied))
      else handle_experiment_failure r.client exp
          (record (of_type (wrapf "failed to list nodes: %w" end e) execution) {
            operation = operation;
          })
  on_listed exp listing operation summary attack (ok []) =
      nothing_found r exp "No eligible nodes found matching selector"
  on_listed exp listing operation summary attack (ok (n ∷ ns)) =
      if exp.spec.dry_run then preview_nodes r exp summary (n ∷ ns) else attack (n ∷ ns)

  unfoldable pub on_nodes :
      ChaosExperiment
      → (listing operation : String) → (ℕ → List String → Message)
      → (List Node → M W Handled)
      → M W Handled
  unfolding on_listed
  on_nodes exp listing operation summary attack = do
    listed ← list_nodes exp.spec.selector
    on_listed exp listing operation summary attack listed

  -- The loop: the names of the nodes. It panics at the first pod that cannot be created: the counter of
  -- errors has three labels, and `WithLabelValues` is given two values. That is `none`.
  unfoldable pub deploy_each :
      (Node → M W (Result String))
      → (reason : String) → (String → Message)
      → List Node
      → M W (Option (List String))
  deploy_each deploy_on reason text [] = return (some [])
  deploy_each deploy_on reason text (node ∷ nodes) = do
    deployed ← deploy_on node
    elim deployed [
      | err _ ↦ return none
      | ok name ↦ do
        event "Warning" reason (text name)
        more ← deploy_each deploy_on reason text nodes
        return (elim more [ none ↦ none | some names ↦ some (node.name ∷ names) ])
    ]

  -- A panic leaves the handler, whose gauge goes down all the same.
  unfoldable pub report_deployed : ChaosExperiment → ℕ → Report → Option (List String) → M W Handled
  unfolding conclude
  report_deployed exp started report none = return (failed_with r.recovered, exp)
  report_deployed exp started report (some reached) = conclude r exp report started reached

  -- Shuffle, choose, deploy, report.
  unfoldable pub deploy_on_nodes :
      ChaosExperiment
      → ℕ
      → (Node → M W (Result String))
      → (reason : String) → (String → Message)
      → Report
      → List Node
      → M W Handled
  unfolding deploy_each report_deployed
  deploy_on_nodes exp started deploy_on reason text report nodes = do
    shuffled ← shuffle_nodes nodes
    deployed ← deploy_each deploy_on reason text (take (target_count exp.spec shuffled) shuffled)
    report_deployed exp started report deployed

  unfoldable pub handle_node_cpu_stress : ChaosExperiment → M W Handled
  unfolding node_cpu_stress_requirements require on_nodes deploy_on_nodes deploy_node_cpu_stress_pod
      conclude positive_or
  handle_node_cpu_stress exp = do
    started ← now
    let workers = positive_or 1 exp.spec.cpu_workers
    tracked r "node-cpu-stress" (
        require r exp (node_cpu_stress_requirements exp.spec) (λ seconds.
          on_nodes exp "listing nodes for node-cpu-stress" "list nodes for node-cpu-stress"
            (λ count names.
              fmt "DRY RUN: Would apply %d%% CPU stress to %d node(s): %v"
                (int exp.spec.cpu_load (num count (strs names end))))
            (deploy_on_nodes exp started
              (λ node. deploy_node_cpu_stress_pod r exp node.name workers seconds)
              "ChaosNodeCPUStress"
              (λ name.
                fmt "Deployed CPU stress pod %s (%d%% load, %d workers) by chaos experiment %s"
                  (str name (int exp.spec.cpu_load (num workers (str exp.name end)))))
              (record {
                action = "node-cpu-stress";
                verb = r.sprintf (fmt "node-cpu-stress-%d%%" (int exp.spec.cpu_load end));
                namespace = "";
                kind = "Node";
                summary = λ names.
                    fmt "Successfully applied %d%% CPU stress to %d node(s) for %ds"
                      (int exp.spec.cpu_load (num (length names) (num seconds end)));
                failure = "Failed to apply CPU stress to any nodes";
                retries = reset_on_success;
                explained = true;
              }))))

  unfoldable pub handle_node_disk_fill : ChaosExperiment → M W Handled
  unfolding node_disk_fill_requirements require on_nodes deploy_on_nodes deploy_node_disk_fill_pod
      conclude positive_or node_target_path
  handle_node_disk_fill exp = do
    started ← now
    let percentage = positive_or 80 exp.spec.fill_percentage
    let path = node_target_path exp
    tracked r "node-disk-fill" (
        require r exp (node_disk_fill_requirements exp.spec) (λ seconds.
          on_nodes exp "listing nodes for node-disk-fill" "list nodes for node-disk-fill"
            (λ count names.
              fmt "DRY RUN: Would fill %d%% of disk on %d node(s) at %s: %v"
                (num percentage (num count (str path (strs names end)))))
            (deploy_on_nodes exp started
              (λ node. deploy_node_disk_fill_pod r exp node.name percentage path seconds)
              "ChaosNodeDiskFill"
              (λ name.
                fmt "Deployed disk fill pod %s (%d%% at %s) by chaos experiment %s"
                  (str name (num percentage (str path (str exp.name end)))))
              (record {
                action = "node-disk-fill";
                verb = r.sprintf (fmt "node-disk-fill-%d%%" (num percentage end));
                namespace = "";
                kind = "Node";
                summary = λ names.
                    fmt "Successfully filling disk to %d%% on %d node(s) at %s for %ds"
                      (num percentage (num (length names) (str path (num seconds end))));
                failure = "Failed to fill disk on any nodes";
                retries = reset_on_success;
                explained = true;
              }))))
