-- ===== src/Controller/Dispatch/Targeted.antt =====
-- internal/controller/chaosexperiment_controller.go: which pods the handlers attack that inject a
-- container into a pod or run a command in it.
pub mod Handlers
use k8s_chaos.Prelude.{
  inl, inr, Option-cases, ℕ, String, List, [], ◌∷◌, Option, Bool, true, false, All, take, arith,
}
use k8s_chaos.Go.{Message, GoError, Result, ok, err}
use k8s_chaos.Api.{ChaosExperiment, ChaosExperimentHistory, Pod}
use k8s_chaos.Client.{M, ◌>>=◌, Task}
use k8s_chaos.Controller.Frame.{Keeps, Harmless, if-keeps}
use k8s_chaos.Controller.Outcome.{Handled}
use k8s_chaos.Controller.Targets.{target_count}
use k8s_chaos.Controller.Ephemeral.{track_affected_pod}
use k8s_chaos.Controller.Targets.Eligible.{IsTarget}
use k8s_chaos.Controller.Handlers.Common.{Reconciler}
use k8s_chaos.Controller.Handlers.Conclusion.{Report, conclude}
use k8s_chaos.Controller.Handlers.Injection.{on_eligible_pods, inject_each, inject_pods}
use k8s_chaos.Controller.Handlers.Pods.{crash_pod, handle_pod_failure, crash_pods}
use k8s_chaos.Controller.Handlers.Stress.{handle_pod_cpu_stress, handle_pod_memory_stress}
use k8s_chaos.Controller.Handlers.Network.{
  handle_pod_network_loss, handle_pod_network_corruption, handle_network_partition,
}
use k8s_chaos.Controller.Handlers.Disk.{handle_pod_disk_fill}
use k8s_chaos.Controller.Handlers.Restart.{
  pause_between, restart_each, restart_paced, restart_eligible, handle_pod_restart,
}
use k8s_chaos.Controller.Handlers.Delay.{delay_pod, delay_eligible, delay_checked, handle_pod_delay}
use k8s_chaos.Controller.Handlers.DryRun.{eligible_failure-Keeps, handle_experiment_failure-Keeps}
use k8s_chaos.Controller.Handlers.Requirements.{Checked, refused, accepted}
use k8s_chaos.Controller.Handlers.Steps.Injected.{
  Tracked, concluded_status-After, inject_each-Tracked,
}
use k8s_chaos.Controller.Handlers.Targeted.{
  All-take, attack_pods-keeps, finish_pods-keeps, record_run-keeps, on_eligible_pods-Keeps,
}
use k8s_chaos.Controller.Handlers.Attacks.{
  Attacks, stress_cpu-Keeps, stress_memory-Keeps, lose_packets-Keeps, corrupt_packets-Keeps,
  cut_off-Keeps, delay_pod-Keeps, fill_disk-Keeps, crash_pod-Keeps, restart_pod-Keeps,
}
use k8s_chaos.Controller.Dispatch.DryRun.{require-Keeps, delay_failure-Keeps}

-- What a run of these handlers may do: its reads, status updates, events, metrics, records and pauses
-- keep `P`, and so do its attacks, on those pods that may be attacked. A shuffle rearranges the pods.
pub record Frame {W : Type 0} (r : Reconciler W) (P : W → Type 0) (exp : ChaosExperiment)
    : Type 1 where
  pub harmless : Harmless r.client P exp
  pub records : (d : ChaosExperimentHistory) → Keeps P (r.client.create_history d)
  pub spawns : (t : Task) → Keeps P (r.client.spawn t)
  pub shuffles : (pods : List Pod) → Keeps P (r.client.shuffle pods)
  pub rearranges :
      (Q : Pod → Type 0) (pods : List Pod) (w : W) → All Q pods → All Q (r.client.shuffle pods w).0
  pub sleeps : (d : ℕ) → Keeps P (r.client.sleep d)
  pub attacks : (pod : Pod) → IsTarget pod → Attacks r P pod

module _ {W : Type 0} (r : Reconciler W) (P : W → Type 0) (exp : ChaosExperiment)
    (f : Frame r P exp) where
  pub found-Keeps :
      (on_error : GoError → M W Handled) (nothing action_type : String)
      (attack : List Pod → M W Handled)
      → ((e : GoError) → Keeps P (on_error e))
      → ((pods : List Pod) → All IsTarget pods → Keeps P (attack pods))
      → Keeps P (on_eligible_pods r exp on_error nothing action_type attack)
  found-Keeps = on_eligible_pods-Keeps r P exp f.harmless f.records f.spawns f.shuffles f.rearranges

  pub conclude-Keeps :
      (exp' : ChaosExperiment) (report : Report) (started : ℕ) (hits : List String)
      → Tracked exp exp'
      → Keeps P (conclude r exp' report started hits)
  unfolding conclude
  conclude-Keeps exp' report started hits k w p =
      let (t, w1) = r.client.now w in
      let a = concluded_status-After exp exp' report t hits k in
      let u = f.harmless.update_status _ a w1 (f.harmless.quiet.now w p) in
      grind (arith, u, record_run-keeps r P exp f.harmless f.records f.spawns)

  inject_each-Keeps :
      (attack : Pod → M W (Option String)) (pods : List Pod) (e : ChaosExperiment)
      → ((pod : Pod) → IsTarget pod → Keeps P (attack pod))
      → All IsTarget pods
      → Keeps P (inject_each r attack pods e)
  unfolding inject_each
  inject_each-Keeps attack [] e k ts w p = p
  inject_each-Keeps attack (x ∷ xs) e k (t, ts) w p =
      let (injected, w1) = attack x w in
      let q = k x t w p in
      elim (Option-cases injected) [
        | inl o ↦ let ih = inject_each-Keeps attack xs e k ts w1 q in ground (arith, o, ih)
        | inr (name, o) ↦
            let e' = track_affected_pod e x.namespace x.name name in
            let ih = inject_each-Keeps attack xs e' k ts w1 q in ground (arith, o, ih)
      ]

  pub injected-Keeps :
      (attack : Pod → M W (Option String)) (report : Report) (started : ℕ) (eligible : List Pod)
      → ((pod : Pod) → IsTarget pod → Keeps P (attack pod))
      → All IsTarget eligible
      → Keeps P
          (do (exp', hits) ← inject_pods r exp attack eligible; conclude r exp' report started hits)
  unfolding inject_pods
  injected-Keeps attack report started eligible k ts w p =
      let (shuffled, w1) = r.client.shuffle eligible w in
      let chosen = take (target_count exp.spec shuffled) shuffled in
      conclude-Keeps _ report started _ (inject_each-Tracked r attack chosen exp w1) _ (
        inject_each-Keeps attack chosen exp k
          (All-take IsTarget _ shuffled (f.rearranges IsTarget eligible w ts)) w1
          (f.shuffles eligible w p))

  pause_between-Keeps : (b : Bool) (d : ℕ) → Keeps P (pause_between r b d)
  unfolding pause_between
  pause_between-Keeps true d w p = p
  pause_between-Keeps false d w p = let q = f.sleeps d w p in ground (arith, p, q)

  restart_each-Keeps :
      (interval : ℕ) (first : Bool) (pods : List Pod)
      → All IsTarget pods
      → Keeps P (restart_each r exp interval first pods)
  unfolding restart_each
  restart_each-Keeps interval first [] ts w p = p
  restart_each-Keeps interval first (x ∷ xs) (t, ts) w p =
      restart_each-Keeps interval false xs ts _ (
        restart_pod-Keeps r P f.harmless.quiet x (f.attacks x t) exp _
          (pause_between-Keeps first interval w p))

  restart_paced-Keeps :
      (started : ℕ) (eligible : List Pod) (interval : Result ℕ)
      → All IsTarget eligible
      → Keeps P (restart_paced r exp started eligible interval)
  unfolding restart_paced
  restart_paced-Keeps started eligible (err e) ts w p =
      handle_experiment_failure-Keeps r P exp f.harmless _ w p
  restart_paced-Keeps started eligible (ok interval) ts w p =
      let (shuffled, w1) = r.client.shuffle eligible w in
      let q =
        restart_each-Keeps interval true (take (target_count exp.spec shuffled) shuffled)
          (All-take IsTarget _ shuffled (f.rearranges IsTarget eligible w ts)) w1
          (f.shuffles eligible w p) in
      search (finish_pods-keeps r P exp f.harmless f.records f.spawns, q)

  pub restart_eligible-Keeps :
      (started : ℕ) (eligible : List Pod)
      → All IsTarget eligible
      → Keeps P (restart_eligible r exp started eligible)
  unfolding restart_eligible
  restart_eligible-Keeps started eligible ts = restart_paced-Keeps started eligible _ ts
