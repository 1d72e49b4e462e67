-- ===== src/Controller/Dispatch/Targeted/Handlers.antt =====
-- internal/controller/chaosexperiment_controller.go: which pods the handlers attack that inject a
-- container into a pod or run a command in it, handler by handler.
use k8s_chaos.Prelude.{ℕ, List, [], ◌∷◌, All}
use k8s_chaos.Go.{Message}
use k8s_chaos.Api.{ChaosExperiment, Pod}
use k8s_chaos.Client.{M}
use k8s_chaos.Controller.Frame.{Keeps}
use k8s_chaos.Controller.Outcome.{Handled}
use k8s_chaos.Controller.Targets.Eligible.{IsTarget}
use k8s_chaos.Controller.Handlers.Common.{Reconciler}
use k8s_chaos.Controller.Handlers.Pods.{crash_pod, handle_pod_failure, crash_pods}
use k8s_chaos.Controller.Handlers.Stress.{handle_pod_cpu_stress, handle_pod_memory_stress}
use k8s_chaos.Controller.Handlers.Network.{
  handle_pod_network_loss, handle_pod_network_corruption, handle_network_partition,
}
use k8s_chaos.Controller.Handlers.Disk.{handle_pod_disk_fill}
use k8s_chaos.Controller.Handlers.Restart.{handle_pod_restart}
use k8s_chaos.Controller.Handlers.Delay.{delay_pod, delay_eligible, delay_checked, handle_pod_delay}
use k8s_chaos.Controller.Handlers.Steps.Injected.{untracked-Tracked, with_message-After}
use k8s_chaos.Controller.Handlers.DryRun.{eligible_failure-Keeps}
use k8s_chaos.Controller.Handlers.Requirements.{Checked, refused, accepted}
use k8s_chaos.Controller.Handlers.Targeted.{attack_pods-keeps, finish_pods-keeps}
use k8s_chaos.Controller.Handlers.Attacks.{
  stress_cpu-Keeps, stress_memory-Keeps, lose_packets-Keeps, corrupt_packets-Keeps, cut_off-Keeps,
  delay_pod-Keeps, fill_disk-Keeps, crash_pod-Keeps,
}
use k8s_chaos.Controller.Dispatch.DryRun.{require-Keeps, delay_failure-Keeps}
use k8s_chaos.Controller.Dispatch.Targeted.{
  Frame, found-Keeps, conclude-Keeps, injected-Keeps, restart_eligible-Keeps,
}

-- The handlers whose attacks reach into a pod.
abbrev pub pod_handlers : {W : Type 0} → Reconciler W → ChaosExperiment → List (M W Handled)
pod_handlers r exp =
    handle_pod_failure r exp
    ∷ handle_pod_restart r exp
    ∷ handle_pod_delay r exp
    ∷ handle_pod_cpu_stress r exp
    ∷ handle_pod_memory_stress r exp
    ∷ handle_pod_network_loss r exp
    ∷ handle_pod_network_corruption r exp
    ∷ handle_network_partition r exp
    ∷ handle_pod_disk_fill r exp
    ∷ []

module _ {W : Type 0} (r : Reconciler W) (P : W → Type 0) (exp : ChaosExperiment)
    (f : Frame r P exp) where
  pub handle_pod_restart-Keeps : Keeps P (handle_pod_restart r exp)
  unfolding handle_pod_restart
  handle_pod_restart-Keeps = search (
    f.harmless.quiet.now,
    f.harmless.quiet.track,
    found-Keeps r P exp f,
    eligible_failure-Keeps r P exp f.harmless,
    restart_eligible-Keeps r P exp f,
  )

  crashes : (pod : Pod) → IsTarget pod → Keeps P (crash_pod r exp pod)
  crashes pod t = crash_pod-Keeps r P f.harmless.quiet pod (f.attacks pod t) exp

  pub handle_pod_failure-Keeps : Keeps P (handle_pod_failure r exp)
  unfolding handle_pod_failure crash_pods
  handle_pod_failure-Keeps = search (
    f.harmless.quiet.now,
    f.harmless.quiet.track,
    found-Keeps r P exp f,
    eligible_failure-Keeps r P exp f.harmless,
    attack_pods-keeps r P exp f.harmless f.records f.spawns f.shuffles f.rearranges,
    crashes,
    finish_pods-keeps r P exp f.harmless f.records f.spawns,
  )

  delays : (delay_ms : ℕ) (pod : Pod) → IsTarget pod → Keeps P (delay_pod r exp delay_ms pod)
  delays delay_ms pod t = delay_pod-Keeps r P f.harmless.quiet pod (f.attacks pod t) exp delay_ms

  delay_eligible-Keeps : (started delay_ms : ℕ) → Keeps P (delay_eligible r exp started delay_ms)
  unfolding delay_eligible
  delay_eligible-Keeps started delay_ms = search (
    found-Keeps r P exp f,
    delay_failure-Keeps r P exp f.harmless,
    attack_pods-keeps r P exp f.harmless f.records f.spawns f.shuffles f.rearranges,
    delays,
    conclude-Keeps r P exp f exp,
    untracked-Tracked,
  )

  delay_checked-Keeps :
      (started : ℕ) (checked : Checked Message ℕ) → Keeps P (delay_checked r exp started checked)
  unfolding delay_checked
  delay_checked-Keeps started (refused text) =
      f.harmless.update_status _ (with_message-After exp text)
  delay_checked-Keeps started (accepted delay_ms) = delay_eligible-Keeps started delay_ms

  pub handle_pod_delay-Keeps : Keeps P (handle_pod_delay r exp)
  unfolding handle_pod_delay
  handle_pod_delay-Keeps =
      search (f.harmless.quiet.now, f.harmless.quiet.track, delay_checked-Keeps)

  pub handle_pod_cpu_stress-Keeps : Keeps P (handle_pod_cpu_stress r exp)
  unfolding handle_pod_cpu_stress
  handle_pod_cpu_stress-Keeps =
      search
        (
          f.harmless.quiet.now,
          f.harmless.quiet.track,
          require-Keeps r P exp f.harmless,
          found-Keeps r P exp f,
          eligible_failure-Keeps r P exp f.harmless,
          injected-Keeps r P exp f,
          stress_cpu-Keeps r P f.harmless.quiet,
          f.attacks,
        )
        depth 12

  pub handle_pod_memory_stress-Keeps : Keeps P (handle_pod_memory_stress r exp)
  unfolding handle_pod_memory_stress
  handle_pod_memory_stress-Keeps =
      search
        (
          f.harmless.quiet.now,
          f.harmless.quiet.track,
          require-Keeps r P exp f.harmless,
          found-Keeps r P exp f,
          injected-Keeps r P exp f,
          stress_memory-Keeps r P f.harmless.quiet,
          f.attacks,
        )
        depth 12

  pub handle_pod_network_loss-Keeps : Keeps P (handle_pod_network_loss r exp)
  unfolding handle_pod_network_loss
  handle_pod_network_loss-Keeps =
      search
        (
          f.harmless.quiet.now,
          f.harmless.quiet.track,
          require-Keeps r P exp f.harmless,
          found-Keeps r P exp f,
          injected-Keeps r P exp f,
          lose_packets-Keeps r P f.harmless.quiet,
          f.attacks,
        )
        depth 12

  pub handle_pod_network_corruption-Keeps : Keeps P (handle_pod_network_corruption r exp)
  unfolding handle_pod_network_corruption
  handle_pod_network_corruption-Keeps =
      search
        (
          f.harmless.quiet.now,
          f.harmless.quiet.track,
          require-Keeps r P exp f.harmless,
          found-Keeps r P exp f,
          injected-Keeps r P exp f,
          corrupt_packets-Keeps r P f.harmless.quiet,
          f.attacks,
        )
        depth 12

  pub handle_network_partition-Keeps : Keeps P (handle_network_partition r exp)
  unfolding handle_network_partition
  handle_network_partition-Keeps =
      search
        (
          f.harmless.quiet.now,
          f.harmless.quiet.track,
          require-Keeps r P exp f.harmless,
          found-Keeps r P exp f,
          injected-Keeps r P exp f,
          cut_off-Keeps r P f.harmless.quiet,
          f.attacks,
        )
        depth 12

  pub handle_pod_disk_fill-Keeps : Keeps P (handle_pod_disk_fill r exp)
  unfolding handle_pod_disk_fill
  handle_pod_disk_fill-Keeps =
      search
        (
          f.harmless.quiet.now,
          f.harmless.quiet.track,
          require-Keeps r P exp f.harmless,
          found-Keeps r P exp f,
          injected-Keeps r P exp f,
          fill_disk-Keeps r P f.harmless.quiet,
          f.attacks,
        )
        depth 12

  -- The handlers of pod-failure, pod-restart, pod-delay, pod-cpu-stress, pod-memory-stress,
  -- pod-network-loss, pod-network-corruption, network-partition and pod-disk-fill keep whatever their
  -- reads, status updates, events, metrics, records and pauses keep, and the attacks on those pods that
  -- lack the exclusion label and are not being deleted: the injection of a container, a command run in
  -- the pod. They attack no other pod.
  pub pod_handlers-Keeps : All (Keeps P) (pod_handlers r exp)
  pod_handlers-Keeps = (
    handle_pod_failure-Keeps,
    (
      handle_pod_restart-Keeps,
      (
        handle_pod_delay-Keeps,
        (
          handle_pod_cpu_stress-Keeps,
          (
            handle_pod_memory_stress-Keeps,
            (
              handle_pod_network_loss-Keeps,
              (
                handle_pod_network_corruption-Keeps,
                (handle_network_partition-Keeps, (handle_pod_disk_fill-Keeps, tt)),
              ),
            ),
          ),
        ),
      ),
    ),
  )
