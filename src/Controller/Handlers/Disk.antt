-- ===== src/Controller/Handlers/Disk.antt =====
-- internal/controller/chaosexperiment_controller.go: `handlePodDiskFill`.
use k8s_chaos.Prelude.{ℕ, String, Option, none, false, length, ◌==◌, if◌then◌else◌}
use k8s_chaos.Go.{fmt, ok, err, str, num, end}
use k8s_chaos.Api.{ChaosExperiment, Pod}
use k8s_chaos.Client.{M, ◌>>=◌, ◌>>◌, return}
use k8s_chaos.Controller.Outcome.{Handled}
use k8s_chaos.Controller.Targets.{resolve_disk_fill_target}
use k8s_chaos.Controller.Handlers.Common.{Reconciler, tracked}
use k8s_chaos.Controller.Handlers.Pods.{count_error}
use k8s_chaos.Controller.Handlers.Containers.{positive_or, inject_disk_fill_container}
use k8s_chaos.Controller.Handlers.Requirements.{disk_fill_requirements}
use k8s_chaos.Controller.Handlers.Conclusion.{conclude, reset_and_running}
use k8s_chaos.Controller.Handlers.Injection.{
  no_eligible_pods, require, raw_failure, on_eligible_pods, announce, inject_pods,
}

module _ {W : Type 0} (r : Reconciler W) where
  open r.client use {now}

  -- The part of the loop's body behind the target path.
  unfoldable pub fill_path : ChaosExperiment → ℕ → Pod → String → M W (Option String)
  unfolding count_error positive_or
  fill_path exp seconds pod path = do
    let percentage = positive_or 80 exp.spec.fill_percentage
    injected ← inject_disk_fill_container r pod percentage path seconds
    elim injected [
      | err e ↦ do count_error r exp "pod-disk-fill" e "update pod/ephemeralcontainers"; return none
      | ok name ↦
          if name == ""
          then return none
          else announce r "ChaosPodDiskFill"
              (fmt "Injected disk fill (%d%%) by chaos experiment %s"
                (num percentage (str exp.name end)))
              name
    ]

  -- One round of the loop.
  unfoldable pub fill_disk : ChaosExperiment → ℕ → Pod → M W (Option String)
  unfolding count_error fill_path
  fill_disk exp seconds pod =
      elim (resolve_disk_fill_target pod exp.spec.volume_name exp.spec.target_path) [
        | err e ↦ do count_error r exp "pod-disk-fill" e "resolve disk fill target"; return none
        | ok path ↦ fill_path exp seconds pod path
      ]

  unfoldable pub handle_pod_disk_fill : ChaosExperiment → M W Handled
  unfolding disk_fill_requirements positive_or require on_eligible_pods fill_disk inject_pods
      conclude
  handle_pod_disk_fill exp = do
    started ← now
    tracked r "pod-disk-fill" (
        require r exp (disk_fill_requirements exp.spec) (λ seconds.
          on_eligible_pods r exp (raw_failure r exp) no_eligible_pods "pod-disk-fill" (λ eligible.
            do
              let percentage = positive_or 80 exp.spec.fill_percentage
              (exp', hits) ← inject_pods r exp (fill_disk exp seconds) eligible
              conclude r exp'
                  (record {
                    action = "pod-disk-fill";
                    verb = r.sprintf (fmt "disk-fill-%d%%" (num percentage end));
                    namespace = exp.spec.namespace;
                    kind = "Pod";
                    summary = λ names.
                        fmt "Successfully filled disk to %d%% on %d pod(s) for %s"
                          (num percentage (num (length names) (str exp.spec.duration end)));
                    failure = "Failed to fill disk on any pods";
                    retries = reset_and_running;
                    explained = false;
                  })
                  started hits)))
