-- ===== src/Controller/Handlers/Attacks.antt =====
-- internal/controller/chaosexperiment_controller.go: which pods the attacks reach that inject a
-- container into a pod or run a command in it.
use k8s_chaos.Prelude.{inl, inr, Bool-cases, ltb, ℕ, zero, suc, ℤ, String, List, [], ◌∷◌, arith}
use k8s_chaos.Go.{GoError, Result, Result-cases}
use k8s_chaos.Api.{ChaosExperiment, Pod, Container, EphemeralContainer}
use k8s_chaos.Client.{M}
use k8s_chaos.Controller.Frame.{Keeps, Quiet}
use k8s_chaos.Controller.Ephemeral.{update_pod_with_ephemeral_container}
use k8s_chaos.Controller.Handlers.Common.{Reconciler}
use k8s_chaos.Controller.Handlers.Pods.{count_error, crash_pod, kill_container_process}
use k8s_chaos.Controller.Handlers.Containers.{
  stamped, inject, inject_unless_busy, inject_cpu_stress_container, inject_memory_stress_container,
  inject_network_loss_container, inject_network_corruption_container, inject_netem,
  inject_disk_fill_container, inject_network_partition_container, in_first, apply_network_delay,
  gracefully_restart_container,
}
use k8s_chaos.Controller.Handlers.Stress.{stress_cpu, stress_memory}
use k8s_chaos.Controller.Handlers.Network.{lose_packets, corrupt_packets, cut_off}
use k8s_chaos.Controller.Handlers.Disk.{fill_path, fill_disk}
use k8s_chaos.Controller.Handlers.Delay.{delay_pod}
use k8s_chaos.Durations.Parse.{second}
use k8s_chaos.Controller.Handlers.Restart.{
  has_restarted, poll_restart, wait_for_container_restart, restart_pod,
}

-- The attacks on a pod keep `P`, and so do the reads of pods and the pauses.
pub record Attacks {W : Type 0} (r : Reconciler W) (P : W → Type 0) (pod : Pod) : Type 0 where
  pub injects :
      (k : EphemeralContainer)
      → Keeps P (update_pod_with_ephemeral_container r.client r.sprintf pod k)
  pub execs :
      (container : String) (command : List String)
      → Keeps P (r.client.exec_in_pod pod.namespace pod.name container command)
  pub reads : (namespace name : String) → Keeps P (r.client.get_pod namespace name)
  pub waits : (d : ℕ) → Keeps P (r.client.wait d)

module _ {W : Type 0} (r : Reconciler W) (P : W → Type 0) (h : Quiet r.client P) (pod : Pod)
    (a : Attacks r P pod) where
  stamped-Keeps : (format : String) → Keeps P (stamped r format)
  unfolding stamped
  stamped-Keeps format = h.now

  inject-Keeps : (k : EphemeralContainer) → Keeps P (inject r pod k)
  unfolding inject
  inject-Keeps k w p = grind (arith, a.injects)

  inject_unless_busy-Keeps :
      (family : String) (k : EphemeralContainer) → Keeps P (inject_unless_busy r family pod k)
  unfolding inject_unless_busy
  inject_unless_busy-Keeps family k w p = grind (arith, a.reads, inject-Keeps)

  inject_cpu_stress_container-Keeps :
      (load : ℤ) (workers seconds : ℕ)
      → Keeps P (inject_cpu_stress_container r pod load workers seconds)
  unfolding inject_cpu_stress_container
  inject_cpu_stress_container-Keeps load workers seconds =
      search (stamped-Keeps, inject_unless_busy-Keeps)

  inject_memory_stress_container-Keeps :
      (workers : ℕ) (size : String) (seconds : ℕ)
      → Keeps P (inject_memory_stress_container r pod workers size seconds)
  unfolding inject_memory_stress_container
  inject_memory_stress_container-Keeps workers size seconds = search (stamped-Keeps, inject-Keeps)

  inject_network_loss_container-Keeps :
      (percentage correlation : ℤ) (seconds : ℕ)
      → Keeps P (inject_network_loss_container r pod percentage correlation seconds)
  unfolding inject_network_loss_container inject_netem
  inject_network_loss_container-Keeps percentage correlation seconds =
      search (stamped-Keeps, inject-Keeps)

  inject_network_corruption_container-Keeps :
      (percentage correlation : ℤ) (seconds : ℕ)
      → Keeps P (inject_network_corruption_container r pod percentage correlation seconds)
  unfolding inject_network_corruption_container inject_netem
  inject_network_corruption_container-Keeps percentage correlation seconds =
      search (stamped-Keeps, inject-Keeps)

  inject_disk_fill_container-Keeps :
      (percentage : ℕ) (path : String) (seconds : ℕ)
      → Keeps P (inject_disk_fill_container r pod percentage path seconds)
  unfolding inject_disk_fill_container
  inject_disk_fill_container-Keeps percentage path seconds =
      search (stamped-Keeps, inject_unless_busy-Keeps)

  inject_network_partition_container-Keeps :
      (direction : String) (seconds : ℕ)
      → Keeps P (inject_network_partition_container r pod direction seconds)
  unfolding inject_network_partition_container
  inject_network_partition_container-Keeps direction seconds = search (stamped-Keeps, inject-Keeps)

  count_error-Keeps :
      (exp : ChaosExperiment) (action : String) (e : GoError) (operation : String)
      → Keeps P (count_error r exp action e operation)
  unfolding count_error
  count_error-Keeps exp action e operation = h.metric _ _ _

  pub stress_cpu-Keeps : (exp : ChaosExperiment) (n : ℕ) → Keeps P (stress_cpu r exp n pod)
  unfolding stress_cpu
  stress_cpu-Keeps exp n w p =
      grind (arith, inject_cpu_stress_container-Keeps, count_error-Keeps, h.event)

  pub stress_memory-Keeps : (exp : ChaosExperiment) (n : ℕ) → Keeps P (stress_memory r exp n pod)
  unfolding stress_memory
  stress_memory-Keeps exp n w p = grind (arith, inject_memory_stress_container-Keeps, h.event)

  pub lose_packets-Keeps : (exp : ChaosExperiment) (n : ℕ) → Keeps P (lose_packets r exp n pod)
  unfolding lose_packets
  lose_packets-Keeps exp n w p = grind (arith, inject_network_loss_container-Keeps, h.event)

  pub corrupt_packets-Keeps :
      (exp : ChaosExperiment) (n : ℕ) → Keeps P (corrupt_packets r exp n pod)
  unfolding corrupt_packets
  corrupt_packets-Keeps exp n w p =
      grind (arith, inject_network_corruption_container-Keeps, h.event)

  pub cut_off-Keeps : (exp : ChaosExperiment) (n : ℕ) → Keeps P (cut_off r exp n pod)
  unfolding cut_off
  cut_off-Keeps exp n w p =
      grind (arith, inject_network_partition_container-Keeps, h.event, h.metric)

  in_first-Keeps :
      (containers : List Container) (run : String → M W (Result (Unit {0})))
      → ((name : String) → Keeps P (run name))
      → Keeps P (in_first r containers run)
  unfolding in_first
  in_first-Keeps [] run k w p = p
  in_first-Keeps (c ∷ cs) run k w p = k c.name w p

  apply_network_delay-Keeps : (delay_ms : ℕ) → Keeps P (apply_network_delay r pod delay_ms)
  unfolding apply_network_delay
  apply_network_delay-Keeps delay_ms = search (in_first-Keeps, a.execs)

  pub delay_pod-Keeps : (exp : ChaosExperiment) (n : ℕ) → Keeps P (delay_pod r exp n pod)
  unfolding delay_pod
  delay_pod-Keeps exp n w p = grind (arith, apply_network_delay-Keeps, h.event)

  fill_path-Keeps :
      (exp : ChaosExperiment) (seconds : ℕ) (path : String)
      → Keeps P (fill_path r exp seconds pod path)
  unfolding fill_path
  fill_path-Keeps exp seconds path w p =
      grind (arith, inject_disk_fill_container-Keeps, count_error-Keeps, h.event)

  pub fill_disk-Keeps : (exp : ChaosExperiment) (n : ℕ) → Keeps P (fill_disk r exp n pod)
  unfolding fill_disk
  fill_disk-Keeps exp n w p = grind (arith, fill_path-Keeps, count_error-Keeps)

  kill_container_process-Keeps : Keeps P (kill_container_process r pod)
  unfolding kill_container_process
  kill_container_process-Keeps = search (in_first-Keeps, a.execs)

  pub crash_pod-Keeps : (exp : ChaosExperiment) → Keeps P (crash_pod r exp pod)
  unfolding crash_pod
  crash_pod-Keeps exp w p = grind (arith, kill_container_process-Keeps, count_error-Keeps, h.event)

  poll_restart-Keeps :
      (rounds deadline : ℕ) (namespace name container : String) (initial : ℕ)
      → Keeps P (poll_restart r rounds deadline namespace name container initial)
  unfolding poll_restart
  poll_restart-Keeps zero deadline namespace name container initial w p = p
  poll_restart-Keeps (suc rounds) deadline namespace name container initial w p =
      let (found, w1) = r.client.get_pod namespace name w in
      let (t, w2) = r.client.now w1 in
      let (waited, w3) = r.client.wait second w2 in
      let q1 = a.reads namespace name w p in
      let q2 = h.now w1 q1 in
      let q3 = a.waits second w2 q2 in
      elim (Result-cases found) [
        | inr (e, q) ↦ ground (arith, q, q1)
        | inl (current, q) ↦ elim (Bool-cases (has_restarted container initial current)) [
          | inl s ↦ ground (arith, q, s, q1)
          | inr s ↦ elim (Bool-cases (ltb deadline t)) [
            | inl l ↦ ground (arith, q, s, l, q2)
            | inr l ↦ elim (Result-cases waited) [
              | inr (e, v) ↦ ground (arith, q, s, l, v, q3)
              | inl (u, v) ↦
                  let ih =
                    poll_restart-Keeps rounds deadline namespace name container initial w3 q3 in
                  ground (arith, q, s, l, v, ih)
            ]
          ]
        ]
      ]

  wait_for_container_restart-Keeps :
      (namespace name container : String) (initial : ℕ)
      → Keeps P (wait_for_container_restart r namespace name container initial)
  unfolding wait_for_container_restart
  wait_for_container_restart-Keeps namespace name container initial =
      search (h.now, poll_restart-Keeps)

  gracefully_restart_container-Keeps : Keeps P (gracefully_restart_container r pod)
  unfolding gracefully_restart_container
  gracefully_restart_container-Keeps = search (in_first-Keeps, a.execs)

  pub restart_pod-Keeps : (exp : ChaosExperiment) → Keeps P (restart_pod r exp pod)
  unfolding restart_pod
  restart_pod-Keeps exp w p = grind (
    arith, gracefully_restart_container-Keeps, wait_for_container_restart-Keeps, count_error-Keeps,
    h.metric, h.event,
  )
