-- ===== src/Examples/Operator.antt =====
-- The reconciler's theorems at concrete inputs.
use k8s_chaos.Prelude.{
  some, none, ℕ, ◌+◌, ◌*◌, ◌/◌, ◌^◌, ◌≤◌, ◌≡◌, ◌↔◌, refl, List, [], ◌∷◌, true, false, min, All,
  arith, eq_iff, eq_refl, select, length,
}
use k8s_chaos.Go.{lit, ok, err, api, other_reason}
use k8s_chaos.Api.{TimeWindow, ChaosExperiment, Condition, EphemeralContainer}
use k8s_chaos.Client.{Client}
use k8s_chaos.Controller.Errors.{ChaosError, of_type, execution}
use k8s_chaos.Controller.Outcome.{done}
use k8s_chaos.Controller.Failure.{exponential_delay, max_retry_delay, handle_experiment_success}
use k8s_chaos.Controller.Failure.Attempts.{Attempt}
use k8s_chaos.Controller.Failure.Backoff.{exponential_delay-exact}
use k8s_chaos.Controller.Targets.{get_eligible_pods, scan_pods}
use k8s_chaos.Controller.Targets.Eligible.{
  is_eligible, IsTarget, scan_pods-exact, get_eligible_pods-exact, get_eligible_pods-IsTarget,
}
use k8s_chaos.Controller.Nodes.{taint_node, untaint_node, cordon_node, uncordon_node, drain_node}
use k8s_chaos.Controller.Nodes.Restore.{
  KeepsNodes, untaint_node-taint_node, uncordon_node-cordon_node,
}
use k8s_chaos.Controller.Nodes.Eviction.{Evicts, drain_node-Evicts}
use k8s_chaos.Controller.Conditions.{put_condition, drop_condition}
use k8s_chaos.Controller.Conditions.Laws.{put_condition-drop_condition}
use k8s_chaos.Controller.Gates.{check_dependencies, check_time_windows}
use k8s_chaos.Controller.Gates.Dependencies.{IsCompleted, Passes, check_dependencies_iff}
use k8s_chaos.Controller.Gates.Passing.{MayPass, check_time_windows_iff}
use k8s_chaos.Controller.Schedule.{is_due}
use k8s_chaos.Controller.Schedule.Due.{IsCron, MissedRun, is_due_iff, is_due-stuck}
use k8s_chaos.Controller.Ephemeral.{pod_ref, parse_pod_ref, update_pod_with_ephemeral_container}
use k8s_chaos.Controller.Ephemeral.Injection.{CountsUpdates, update_pod-bounded}
use k8s_chaos.Controller.Ephemeral.References.{parse_pod_ref-pod_ref}
use k8s_chaos.Controller.Reconcile.{reconcile}
use k8s_chaos.Controller.Reconcile.Idle.{reconcile-handle_experiment_success, reconcile-paused}
use k8s_chaos.Examples.World.{
  World, kube, reconciler, calendar, spec, experiment, warmup, web, excluded, node, cluster,
  find_experiment,
}

abbrev failure : ChaosError
failure = of_type (api other_reason "boom") execution

-- The cluster's one experiment is the one that was stored last.
abbrev newest : World → ChaosExperiment
newest w = elim w.experiments [ [] ↦ experiment | exp ∷ _ ↦ exp ]

abbrev single : Client World
single = record kube { get_experiment = λ namespace name w. (ok (newest w), w) }

abbrev later : World → World
later w = record w { time = w.time + 60000000000 }

abbrev failed_attempts : List (Attempt World)
failed_attempts = (later, failure) ∷ (later, failure) ∷ (later, failure) ∷ []

exponential_delay-exact_example :
    exponential_delay 30000000000 3 ≡ min (30000000000 * 2 ^ 3) max_retry_delay
exponential_delay-exact_example = exponential_delay-exact 30000000000 3 (omega arith)

scan_pods-exact_example :
    let s = scan_pods false (web ∷ excluded ∷ []) in
    (s.eligible ≡ select (is_eligible false) (web ∷ excluded ∷ []))
    × (length s.eligible + s.by_namespace + s.by_label + s.by_terminating ≡ 2)
scan_pods-exact_example = scan_pods-exact false (web ∷ excluded ∷ [])

get_eligible_pods-exact_example : (get_eligible_pods kube experiment cluster).0 ≡ ok (web ∷ [])
get_eligible_pods-exact_example =
    get_eligible_pods-exact kube experiment (web ∷ excluded ∷ []) cluster cluster
      (λ e. absurd (ground (arith, eq_iff "default" "", e))) refl

keeps_nodes : KeepsNodes kube
keeps_nodes = record { get-update = λ n w h. rw (eq_refl n.name) refl }

tainted :
    taint_node kube node "chaos" "true" "NoSchedule" cluster
    ≡ (ok false, (taint_node kube node "chaos" "true" "NoSchedule" cluster).1)
unfolding taint_node
tainted = refl

cordoned : cordon_node kube node cluster ≡ (ok false, (cordon_node kube node cluster).1)
unfolding cordon_node
cordoned = refl

untaint_node-taint_node_example :
    (untaint_node kube "worker" "chaos" "NoSchedule"
      (taint_node kube node "chaos" "true" "NoSchedule" cluster).1).1
    ≡ (kube.update_node node (taint_node kube node "chaos" "true" "NoSchedule" cluster).1).1
untaint_node-taint_node_example =
    untaint_node-taint_node kube keeps_nodes node "chaos" "true" "NoSchedule" cluster
      (taint_node kube node "chaos" "true" "NoSchedule" cluster).1 refl refl tainted

uncordon_node-cordon_node_example :
    (uncordon_node kube "worker" (cordon_node kube node cluster).1).1
    ≡ (kube.update_node node (cordon_node kube node cluster).1).1
uncordon_node-cordon_node_example =
    uncordon_node-cordon_node kube keeps_nodes node cluster (cordon_node kube node cluster).1 refl
      cordoned

drain_node-Evicts_example : Evicts kube cluster.pods cluster (drain_node kube node cluster).1
drain_node-Evicts_example = drain_node-Evicts kube node cluster.pods cluster cluster refl

abbrev condition : Condition
condition = record {
  condition_type = "BlockedByTimeWindow";
  condition_status = true;
  observed_generation = 1;
  last_transition_time = 1;
  reason = "OutsideTimeWindow";
  message = lit "";
}

abbrev other : Condition
other = record condition { condition_type = "Ready" }

abbrev older_condition : Condition
older_condition = record condition { last_transition_time = 0 }

put_condition-drop_condition_example :
    (put_condition condition (other ∷ older_condition ∷ other ∷ [])
      ≡ other ∷ condition ∷ other ∷ [])
    × (drop_condition (other ∷ condition ∷ other ∷ []) ≡ other ∷ other ∷ [])
    × (put_condition condition (other ∷ []) ≡ other ∷ condition ∷ [])
    × (drop_condition (put_condition condition (other ∷ [])) ≡ other ∷ [])
    × (drop_condition (other ∷ []) ≡ other ∷ [])
put_condition-drop_condition_example =
    put_condition-drop_condition condition older_condition (other ∷ []) (other ∷ []) refl refl
      (refl, tt)

check_dependencies_iff_example :
    (Passes (check_dependencies kube experiment cluster).0
      ↔ All (λ dep. IsCompleted (find_experiment dep (experiment ∷ warmup ∷ []))) ("warmup" ∷ []))
    × ((check_dependencies kube experiment cluster).1 ≡ cluster)
check_dependencies_iff_example =
    check_dependencies_iff kube (λ namespace name. find_experiment name cluster.experiments) cluster
      (λ namespace name. refl) experiment

found_again :
    let after = handle_experiment_success kube experiment cluster in
    kube.get_experiment "default" "kill-web" after.1 ≡ (ok after.0.1, after.1)
unfolding handle_experiment_success
found_again = refl

reconcile-handle_experiment_success_example :
    let after = (handle_experiment_success kube experiment cluster).1 in
    reconcile reconciler calendar (λ s. err (api other_reason "no cron")) "default" "kill-web" after
    ≡ (done, after)
reconcile-handle_experiment_success_example =
    let after = (handle_experiment_success kube experiment cluster) in
    reconcile-handle_experiment_success reconciler calendar (λ s. err (api other_reason "no cron"))
      experiment after.0.1 "default" "kill-web" after.0.0 cluster after.1 after.1 after.1 refl refl
      refl found_again

get_eligible_pods-IsTarget_example : All IsTarget (web ∷ [])
get_eligible_pods-IsTarget_example =
    get_eligible_pods-IsTarget kube experiment (web ∷ []) cluster get_eligible_pods-exact_example

-- No pod has been deleted.
abbrev NoneDeleted : World → Type 0
NoneDeleted w = w.deleted ≡ []

abbrev paused_cluster : World
paused_cluster = record cluster {
  experiments = record experiment { spec = record spec { paused = true } } ∷ [];
}

reconcile-paused_example :
    NoneDeleted
      (reconcile reconciler calendar
        (λ s. err (api other_reason "no cron"))
        "default"
        "kill-web"
        paused_cluster).1
reconcile-paused_example =
    reconcile-paused reconciler calendar (λ s. err (api other_reason "no cron")) NoneDeleted
      (record experiment { spec = record spec { paused = true } }) "default" "kill-web"
      paused_cluster paused_cluster (λ e w h. h) refl refl refl

-- The schedule of every tenth second, as a function, and its times.
abbrev period : ℕ
period = 10000000000

abbrev every_ten : ℕ → ℕ
every_ten t = (t / period + 1) * period

abbrev Tenth : ℕ → Type 0
Tenth t = (k : ℕ) × (t ≡ k * period)

every_ten-IsCron : IsCron Tenth every_ten
every_ten-IsCron = record {
  after = λ t. omega arith;
  fires = λ t. (t / period + 1, refl);
  first = λ t s h f. let (k, e) = f in omega (arith, e);
}

is_due_iff_example :
    (is_due every_ten 15000000000 25000000000 ≡ true) ↔ MissedRun Tenth 15000000000 25000000000
is_due_iff_example =
    is_due_iff Tenth every_ten every_ten-IsCron 15000000000 25000000000
      (λ s h f. let (k, e) = f in omega (arith, e))

is_due-stuck_example : is_due every_ten 20000000000 95000000000 ≡ false
is_due-stuck_example =
    is_due-stuck Tenth every_ten every_ten-IsCron 20000000000 95000000000
      (λ s f. let (k, e) = f in omega (arith, e)) (omega arith) (2, refl)

abbrev stress : EphemeralContainer
stress = record {
  name = "chaos-cpu";
  image = "stress-ng";
  command = [];
  capabilities = [];
  cpu = none;
}

counts : CountsUpdates kube (λ w. w.calls)
counts = record { reads = λ namespace name w. refl; sleeps = λ n w. refl; updates = λ p w. refl }

update_pod-bounded_example :
    (update_pod_with_ephemeral_container kube
      (λ m. "Operation cannot be fulfilled")
      web
      stress
      cluster).1.calls
    ≤ 0 + 5
update_pod-bounded_example =
    update_pod-bounded kube (λ w. w.calls) counts (λ m. "Operation cannot be fulfilled") web stress
      cluster

abbrev office : TimeWindow
office = record {
  window_type = "Recurring";
  start = "09:00";
  finish = "17:00";
  timezone = "";
  days_of_week = "mon" ∷ [];
}

abbrev upgrade : TimeWindow
upgrade = record office {
  window_type = "Absolute";
  start = "2025-01-01T00:00:00Z";
  finish = "2025-01-02T00:00:00Z";
}

abbrev limited : ChaosExperiment
limited = record experiment {
  spec = record spec { time_windows = office ∷ []; maintenance_windows = upgrade ∷ [] };
}

check_time_windows_iff_example :
    ((check_time_windows kube calendar limited cluster).0.0 ≡ none)
    ↔ MayPass kube calendar (upgrade ∷ []) (office ∷ []) 1000000000
check_time_windows_iff_example = check_time_windows_iff kube calendar limited cluster

parse_pod_ref-pod_ref_example :
    parse_pod_ref (pod_ref "ns" "web" "chaos:1") ≡ some ("ns", "web", "chaos:1")
parse_pod_ref-pod_ref_example =
    parse_pod_ref-pod_ref "ns" "web" "chaos:1" (refl, (refl, tt)) (refl, (refl, tt))
      (refl, (refl, (refl, tt)))
