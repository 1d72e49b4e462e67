-- ===== src/Controller/Handlers/Network.antt =====
-- internal/controller/chaosexperiment_controller.go: `handlePodNetworkLoss`,
-- `handlePodNetworkCorruption` and `handleNetworkPartition`.
use k8s_chaos.Prelude.{ℕ, String, [], ◌∷◌, Option, none, true, false, length}
use k8s_chaos.Go.{fmt, ok, err, str, int, num, end}
use k8s_chaos.Api.{ChaosExperiment, Pod}
use k8s_chaos.Client.{M, ◌>>=◌, ◌>>◌, return}
use k8s_chaos.Controller.Outcome.{Handled}
use k8s_chaos.Controller.Handlers.Common.{Reconciler, tracked}
use k8s_chaos.Controller.Handlers.Containers.{
  inject_network_loss_container, inject_network_corruption_container,
  inject_network_partition_container,
}
use k8s_chaos.Controller.Handlers.Requirements.{
  network_loss_requirements, network_corruption_requirements, partition_requirements, direction_of,
}
use k8s_chaos.Controller.Handlers.Conclusion.{conclude, left_alone, reset_and_running}
use k8s_chaos.Controller.Handlers.Injection.{
  no_eligible_pods, require, raw_failure, on_eligible_pods, announce, inject_pods,
}

module _ {W : Type 0} (r : Reconciler W) where
  open r.client use {now, metric}

  -- One round of the loop of `handlePodNetworkLoss`.
  unfoldable pub lose_packets : ChaosExperiment → ℕ → Pod → M W (Option String)
  lose_packets exp seconds pod = do
    injected ←
        inject_network_loss_container r pod exp.spec.loss_percentage exp.spec.loss_correlation
          seconds
    elim injected [
      | err _ ↦ return none
      | ok name ↦
          announce r "ChaosPodNetworkLoss"
            (fmt "Injected %d%% packet loss by chaos experiment %s"
              (int exp.spec.loss_percentage (str exp.name end)))
            name
    ]

  unfoldable pub handle_pod_network_loss : ChaosExperiment → M W Handled
  unfolding network_loss_requirements require on_eligible_pods lose_packets inject_pods conclude
  handle_pod_network_loss exp = do
    started ← now
    tracked r "pod-network-loss" (
        require r exp (network_loss_requirements exp.spec) (λ seconds.
          on_eligible_pods r exp (raw_failure r exp) no_eligible_pods "pod-network-loss"
            (λ eligible. do
              (exp', hits) ← inject_pods r exp (lose_packets exp seconds) eligible
              conclude r exp'
                  (record {
                    action = "pod-network-loss";
                    verb = "network-loss";
                    namespace = exp.spec.namespace;
                    kind = "Pod";
                    summary = λ names.
                        fmt "Successfully injected %d%% packet loss into %d pod(s) for %s" (
                          int exp.spec.loss_percentage
                            (num (length names) (str exp.spec.duration end)));
                    failure = "Failed to inject network loss into any pods";
                    retries = reset_and_running;
                    explained = false;
                  })
                  started hits)))

  -- One round of the loop of `handlePodNetworkCorruption`.
  unfoldable pub corrupt_packets : ChaosExperiment → ℕ → Pod → M W (Option String)
  corrupt_packets exp seconds pod = do
    injected ←
        inject_network_corruption_container r pod exp.spec.corruption_percentage
          exp.spec.corruption_correlation seconds
    elim injected [
      | err _ ↦ return none
      | ok name ↦
          announce r "ChaosPodNetworkCorruption"
            (fmt "Injected %d%% packet corruption by chaos experiment %s"
              (int exp.spec.corruption_percentage (str exp.name end)))
            name
    ]

  unfoldable pub handle_pod_network_corruption : ChaosExperiment → M W Handled
  unfolding network_corruption_requirements require on_eligible_pods corrupt_packets inject_pods
      conclude
  handle_pod_network_corruption exp = do
    started ← now
    tracked r "pod-network-corruption" (
        require r exp (network_corruption_requirements exp.spec) (λ seconds.
          on_eligible_pods r exp (raw_failure r exp) no_eligible_pods "pod-network-corruption"
            (λ eligible. do
              (exp', hits) ← inject_pods r exp (corrupt_packets exp seconds) eligible
              conclude r exp'
                  (record {
                    action = "pod-network-corruption";
                    verb =
                        r.sprintf
                          (fmt "network-corruption-%d%%" (int exp.spec.corruption_percentage end));
                    namespace = exp.spec.namespace;
                    kind = "Pod";
                    summary = λ names.
                        fmt "Successfully injected %d%% packet corruption into %d pod(s) for %s" (
                          int exp.spec.corruption_percentage
                            (num (length names) (str exp.spec.duration end)));
                    failure = "Failed to inject network corruption into any pods";
                    retries = left_alone;
                    explained = true;
                  })
                  started hits)))

  -- One round of the loop of `handleNetworkPartition`.
  unfoldable pub cut_off : ChaosExperiment → ℕ → Pod → M W (Option String)
  unfolding direction_of
  cut_off exp seconds pod = do
    injected ← inject_network_partition_container r pod (direction_of exp.spec) seconds
    elim injected [
      | err _ ↦ do
        metric "chaosexperiment_errors_total"
            ("network-partition" ∷ exp.spec.namespace ∷ "injection_error" ∷ []) 1
        return none
      | ok name ↦
          announce r "ChaosNetworkPartition"
            (fmt "Injected network partition (%s) by chaos experiment %s"
              (str (direction_of exp.spec) (str exp.name end)))
            name
    ]

  unfoldable pub handle_network_partition : ChaosExperiment → M W Handled
  unfolding partition_requirements direction_of require on_eligible_pods cut_off inject_pods
      conclude
  handle_network_partition exp = do
    started ← now
    tracked r "network-partition" (
        require r exp (partition_requirements exp.spec) (λ seconds.
          on_eligible_pods r exp (raw_failure r exp) no_eligible_pods
            (r.sprintf (fmt "network-partition (%s)" (str (direction_of exp.spec) end)))
            (λ eligible. do
              (exp', hits) ← inject_pods r exp (cut_off exp seconds) eligible
              conclude r exp'
                  (record {
                    action = "network-partition";
                    verb = r.sprintf (fmt "network-partition-%s" (str (direction_of exp.spec) end));
                    namespace = exp.spec.namespace;
                    kind = "Pod";
                    summary = λ names.
                        fmt "Successfully injected network partition (%s) into %d pod(s) for %s" (
                          str (direction_of exp.spec)
                            (num (length names) (str exp.spec.duration end)));
                    failure = "Failed to inject network partition into any pods";
                    retries = left_alone;
                    explained = false;
                  })
                  started hits)))
