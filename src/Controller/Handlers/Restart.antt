-- ===== src/Controller/Handlers/Restart.antt =====
-- internal/controller/chaosexperiment_controller.go: `handlePodRestart` and `waitForContainerRestart`.
pub mod Polling
use k8s_chaos.Prelude.{
  ℕ, zero, suc, ◌+◌, ◌*◌, String, List, [], ◌∷◌, Bool, true, false, ◌&&◌, Option, none, some, any,
  ltb, length, take, ◌==◌, if◌then◌else◌,
}
use k8s_chaos.Go.{
  fmt, GoError, error_text, Result, ok, err, errorf, wrapf, wrapf_first, str, num, msg, end,
}
use k8s_chaos.Api.{ChaosExperiment, ChaosExperimentSpec, Pod, ContainerStatus}
use k8s_chaos.Client.{M, ◌>>=◌, ◌>>◌, return}
use k8s_chaos.Durations.Parse.{second, parse_duration}
use k8s_chaos.Controller.Errors.{validation, of_type}
use k8s_chaos.Controller.Outcome.{Handled}
use k8s_chaos.Controller.Failure.{handle_experiment_failure, is_greater}
use k8s_chaos.Controller.Targets.{get_primary_container_restart_count, target_count}
use k8s_chaos.Controller.Handlers.Common.{Reconciler, tracked, eligible_failure, finish_pods}
use k8s_chaos.Controller.Handlers.Pods.{count_error, no_eligible_pods_with_exclusions}
use k8s_chaos.Controller.Handlers.Containers.{gracefully_restart_container}
use k8s_chaos.Controller.Handlers.Injection.{on_eligible_pods}

-- The container has restarted since it was counted.
unfoldable pub has_restarted : String → ℕ → Pod → Bool
has_restarted container initial pod =
    any (λ (s : ContainerStatus). s.name == container && ltb initial s.restart_count)
      pod.container_statuses

-- 45 seconds, and the rounds that take longer than that with a pause of one second after each.
abbrev pub restart_deadline : ℕ
restart_deadline = 45 * second

abbrev pub restart_rounds : ℕ
restart_rounds = 47

abbrev not_restarted : String → String → String → GoError
not_restarted namespace name container =
    errorf "container %q in pod %s/%s did not restart within 45s"
      (str container (str namespace (str name end)))

-- The pause between two pods: none without an interval. A negative one is no pause either.
unfoldable pub restart_interval_of : ChaosExperimentSpec → Result ℕ
restart_interval_of spec =
    if spec.restart_interval == "" then ok 0 else parse_duration spec.restart_interval

module _ {W : Type 0} (r : Reconciler W) where
  open r.client use {now, sleep, wait, event, metric, get_pod}

  -- The loop, with the rounds left: `none` where they do not suffice.
  unfoldable pub poll_restart :
      (rounds deadline : ℕ)
      → (namespace name container : String) → ℕ
      → M W (Option (Result (Unit {0})))
  poll_restart zero deadline namespace name container initial = return none
  poll_restart (suc rounds) deadline namespace name container initial = do
    found ← get_pod namespace name
    elim found [
      | err e ↦ return (some (err (wrapf "failed to get pod while waiting for restart: %w" end e)))
      | ok current ↦ if has_restarted container initial current then return (some (ok tt)) else do
        t ← now
        elim (ltb deadline t) [
          | true ↦ return (some (err (not_restarted namespace name container)))
          | false ↦ do
            waited ← wait second
            elim waited [
              | err e ↦ return (some (err e))
              | ok _ ↦ poll_restart rounds deadline namespace name container initial
            ]
        ]
    ]

  -- A clock that advances ends the loop before its rounds are used up.
  unfoldable pub wait_for_container_restart :
      (namespace name container : String) → ℕ → M W (Result (Unit {0}))
  unfolding poll_restart
  wait_for_container_restart namespace name container initial = do
    t ← now
    polled ← poll_restart restart_rounds (t + restart_deadline) namespace name container initial
    return
        (elim polled [ none ↦ err (not_restarted namespace name container) | some found ↦ found ])

  -- The error of the wait, to which the one of the signal is added.
  abbrev with_signal : GoError → Result (Unit {0}) → GoError
  with_signal e (ok _) = e
  with_signal e (err s) = wrapf_first "%w; restart signal error: %v" e (msg (error_text s) end)

  -- One round of the loop over the pods, behind the pause.
  unfoldable pub restart_pod : ChaosExperiment → Pod → M W (Option String)
  unfolding count_error
  restart_pod exp pod = elim (get_primary_container_restart_count pod) [
    | err _ ↦ do
      metric "chaosexperiment_errors_total" ("pod-restart" ∷ exp.spec.namespace ∷ "execution" ∷ [])
          1
      return none
    | ok (container, initial) ↦ do
      signalled ← gracefully_restart_container r pod
      restarted ← wait_for_container_restart pod.namespace pod.name container initial
      elim restarted [
        | err e ↦ do
          count_error r exp "pod-restart" (with_signal e signalled) "observe pod restart"
          return none
        | ok _ ↦ do
          event "Warning" "ChaosPodRestart"
              (fmt "Restarted pod by chaos experiment %s" (str exp.name end))
          return (some pod.name)
      ]
  ]

  unfoldable pub pause_between : (first : Bool) → ℕ → M W (Unit {0})
  pause_between first interval = elim first [
    | true ↦ return tt
    | false ↦ if is_greater interval 0 then sleep interval else return tt
  ]

  -- The loop: a pause before each pod but the first.
  unfoldable pub restart_each : ChaosExperiment → ℕ → Bool → List Pod → M W (List String)
  unfolding restart_pod pause_between
  restart_each exp interval first [] = return []
  restart_each exp interval first (pod ∷ pods) = do
    pause_between first interval
    restarted ← restart_pod exp pod
    hits ← restart_each exp interval false pods
    return (elim restarted [ none ↦ hits | some name ↦ name ∷ hits ])

  -- What follows the parsing of the interval.
  unfoldable pub restart_paced : ChaosExperiment → ℕ → List Pod → Result ℕ → M W Handled
  unfolding restart_each
  restart_paced exp started eligible (err e) =
      handle_experiment_failure r.client exp
        (of_type (wrapf "invalid restartInterval: %w" end e) validation)
  restart_paced exp started eligible (ok interval) = do
    shuffled ← r.client.shuffle eligible
    restarted ← restart_each exp interval true (take (target_count exp.spec shuffled) shuffled)
    finish_pods r exp "pod-restart" "failed to restart any pods"
        (λ names. fmt "Successfully restarted %d pod(s)" (num (length names) end))
        "container-restarted" started restarted

  unfoldable pub restart_eligible : ChaosExperiment → ℕ → List Pod → M W Handled
  unfolding restart_interval_of restart_paced
  restart_eligible exp started eligible =
      restart_paced exp started eligible (restart_interval_of exp.spec)

  unfoldable pub handle_pod_restart : ChaosExperiment → M W Handled
  unfolding on_eligible_pods restart_eligible
  handle_pod_restart exp = do
    started ← now
    tracked r "pod-restart" (
        on_eligible_pods r exp (eligible_failure r exp "listing pods for pod-restart")
          no_eligible_pods_with_exclusions "gracefully restart" (restart_eligible exp started))
