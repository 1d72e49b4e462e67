-- ===== src/Controller/Handlers/Stress.antt =====
-- internal/controller/chaosexperiment_controller.go: `handlePodCPUStress` and `handlePodMemoryStress`.
use k8s_chaos.Prelude.{ℕ, String, Option, none, true, length, ◌==◌, if◌then◌else◌}
use k8s_chaos.Go.{fmt, ok, err, str, int, num, end}
use k8s_chaos.Api.{ChaosExperiment, Pod}
use k8s_chaos.Client.{M, ◌>>=◌, ◌>>◌, return}
use k8s_chaos.Controller.Outcome.{Handled}
use k8s_chaos.Controller.Handlers.Common.{Reconciler, tracked, eligible_failure}
use k8s_chaos.Controller.Handlers.Pods.{count_error, no_eligible_pods_with_exclusions}
use k8s_chaos.Controller.Handlers.Containers.{
  positive_or, inject_cpu_stress_container, inject_memory_stress_container,
}
use k8s_chaos.Controller.Handlers.Requirements.{cpu_stress_requirements, memory_stress_requirements}
use k8s_chaos.Controller.Handlers.Conclusion.{conclude, reset_on_success, reset_and_running}
use k8s_chaos.Controller.Handlers.Injection.{
  no_eligible_pods, require, raw_failure, on_eligible_pods, announce, inject_pods,
}

module _ {W : Type 0} (r : Reconciler W) where
  open r.client use {now}

  -- One round of the loop of `handlePodCPUStress`.
  unfoldable pub stress_cpu : ChaosExperiment → ℕ → Pod → M W (Option String)
  unfolding count_error positive_or
  stress_cpu exp seconds pod = do
    let workers = positive_or 1 exp.spec.cpu_workers
    injected ← inject_cpu_stress_container r pod exp.spec.cpu_load workers seconds
    elim injected [
      | err e ↦ do
        count_error r exp "pod-cpu-stress" e "update pod/ephemeralcontainers"
        return none
      | ok name ↦
          if name == ""
          then return none
          else announce r "ChaosPodCPUStress"
              (fmt "Injected CPU stress (%d%% load, %d workers) by chaos experiment %s"
                (int exp.spec.cpu_load (num workers (str exp.name end))))
              name
    ]

  unfoldable pub handle_pod_cpu_stress : ChaosExperiment → M W Handled
  unfolding cpu_stress_requirements require on_eligible_pods stress_cpu inject_pods conclude
  handle_pod_cpu_stress exp = do
    started ← now
    tracked r "pod-cpu-stress" (
        require r exp (cpu_stress_requirements exp.spec) (λ seconds.
          on_eligible_pods r exp (eligible_failure r exp "listing pods for pod-cpu-stress")
            no_eligible_pods_with_exclusions
            (r.sprintf (fmt "apply %d%% CPU stress to" (int exp.spec.cpu_load end)))
            (λ eligible. do
              (exp', hits) ← inject_pods r exp (stress_cpu exp seconds) eligible
              conclude r exp'
                  (record {
                    action = "pod-cpu-stress";
                    verb = r.sprintf (fmt "cpu-stress-%d%%" (int exp.spec.cpu_load end));
                    namespace = exp.spec.namespace;
                    kind = "Pod";
                    summary = λ names.
                        fmt "Successfully applied %d%% CPU stress to %d pod(s) for %ds"
                          (int exp.spec.cpu_load (num (length names) (num seconds end)));
                    failure = "Failed to apply CPU stress to any pods";
                    retries = reset_on_success;
                    explained = true;
                  })
                  started hits)))

  -- One round of the loop of `handlePodMemoryStress`: an error is logged.
  unfoldable pub stress_memory : ChaosExperiment → ℕ → Pod → M W (Option String)
  unfolding positive_or
  stress_memory exp seconds pod = do
    let workers = positive_or 1 exp.spec.memory_workers
    injected ← inject_memory_stress_container r pod workers exp.spec.memory_size seconds
    elim injected [
      | err _ ↦ return none
      | ok name ↦
          announce r "ChaosPodMemoryStress"
            (fmt "Injected memory stress (%s, %d workers) by chaos experiment %s"
              (str exp.spec.memory_size (num workers (str exp.name end))))
            name
    ]

  unfoldable pub handle_pod_memory_stress : ChaosExperiment → M W Handled
  unfolding memory_stress_requirements require on_eligible_pods stress_memory inject_pods conclude
  handle_pod_memory_stress exp = do
    started ← now
    tracked r "pod-memory-stress" (
        require r exp (memory_stress_requirements exp.spec) (λ seconds.
          on_eligible_pods r exp (raw_failure r exp) no_eligible_pods "pod-memory-stress"
            (λ eligible. do
              (exp', hits) ← inject_pods r exp (stress_memory exp seconds) eligible
              conclude r exp'
                  (record {
                    action = "pod-memory-stress";
                    verb = "memory-stress";
                    namespace = exp.spec.namespace;
                    kind = "Pod";
                    summary = λ names.
                        fmt "Successfully injected memory stress into %d pod(s) for %s"
                          (num (length names) (str exp.spec.duration end));
                    failure = "Failed to stress any pods";
                    retries = reset_and_running;
                    explained = true;
                  })
                  started hits)))
