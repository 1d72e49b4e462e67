-- ===== src/Controller/Handlers/Restart/Polling.antt =====
-- internal/controller/chaosexperiment_controller.go: when `waitForContainerRestart` ends, and what it
-- has seen then.
use k8s_chaos.Prelude.{
  ℕ, zero, suc, ◌+◌, ◌*◌, ◌≤◌, ◌<◌, ◌≡◌, inl, inr, String, true, some, ltb, arith, Bool-cases,
  Option-cases, ◌≢◌, none, ltb-false→le, Exists, any-Exists, eq_iff,
}
use k8s_chaos.Go.{Result, ok, Result-cases}
use k8s_chaos.Api.{Pod, ContainerStatus}
use k8s_chaos.Client.{Client}
use k8s_chaos.Durations.Parse.{second}
use k8s_chaos.Controller.Handlers.Common.{Reconciler}
use k8s_chaos.Controller.Handlers.Restart.{
  has_restarted, restart_deadline, restart_rounds, poll_restart, wait_for_container_restart,
}

-- A clock that never goes back, and that a wait that was not cancelled advances by its length.
pub record Advances {W : Type 0} (c : Client W) (clock : W → ℕ) : Type 0 where
  pub reads : (w : W) → (c.now w).0 ≡ clock w
  pub goes_on : (w : W) → clock w ≤ clock (c.now w).1
  pub reading : (namespace name : String) (w : W) → clock w ≤ clock (c.get_pod namespace name w).1
  pub waits : (d : ℕ) (w : W) → (c.wait d w).0 ≡ ok tt → clock w + d ≤ clock (c.wait d w).1

module _ {W : Type 0} (r : Reconciler W) (namespace name container : String) (initial : ℕ) where
  open r.client use {now, wait, get_pod}

  -- The rounds that are left exceed the time that is left.
  poll_restart-answers :
      (clock : W → ℕ)
      → Advances r.client clock
      → (rounds deadline : ℕ) (w : W) → 1 ≤ rounds
      → deadline + second < clock w + rounds * second
      → (poll_restart r rounds deadline namespace name container initial w).0 ≢ none
  unfolding poll_restart
  poll_restart-answers clock a zero deadline w p h n = omega (arith, p)
  poll_restart-answers clock a (suc rounds) deadline w p h n =
      let (found, w1) = get_pod namespace name w in
      let (t, w2) = now w1 in
      let (waited, w3) = wait second w2 in
      elim (Result-cases found) [
        | inr (e, q) ↦ ground (arith, q, n)
        | inl (current, q) ↦ elim (Bool-cases (has_restarted container initial current)) [
          | inl s ↦ ground (arith, q, s, n)
          | inr s ↦ elim (Bool-cases (ltb deadline t)) [
            | inl l ↦ ground (arith, q, s, l, n)
            | inr l ↦ elim (Result-cases waited) [
              | inr (e, v) ↦ ground (arith, q, s, l, v, n)
              | inl (u, v) ↦
                  let k = ltb-false→le deadline t l in
                  let g = a.reading namespace name w in
                  let m = a.reads w1 in
                  let o = a.goes_on w1 in
                  let z = a.waits second w2 v in
                  poll_restart-answers clock a rounds deadline w3 (omega (arith, k, g, m, h))
                    (omega (arith, g, m, o, z, h)) (ground (arith, q, s, l, v, n))
            ]
          ]
        ]
      ]

  -- The wait for a restart ends within its 47 rounds, with success or an error, where no reading of the
  -- clock or of a pod sets the clock back and a pause of one second that is not cancelled advances it by
  -- one second at least.
  pub poll_restart-ends :
      (clock : W → ℕ)
      → Advances r.client clock
      → (w : W)
      → (answer : Result (Unit {0})) × ((poll_restart r restart_rounds
            ((now w).0 + restart_deadline)
            namespace
            name
            container
            initial
            (now w).1).0
          ≡ some answer)
  poll_restart-ends clock a w =
      let (t, w1) = now w in
      elim (Option-cases
        (poll_restart r restart_rounds (t + restart_deadline) namespace name container initial
          w1).0) [
            | inr answer ↦ answer
            | inl e ↦ absurd (
                poll_restart-answers clock a restart_rounds (t + restart_deadline) w1 (omega arith)
                  (omega (arith, a.reads w, a.goes_on w)) e)
          ]

  -- The environment of the next read, where a read has not ended the wait.
  abbrev next_round : W → W
  next_round w = (wait second (now (get_pod namespace name w).1).1).1

  -- The environments of the reads of a wait whose first read is made from `w`.
  pub data IsRead : W → W → Type 0 where
    this_round : {w : W} → IsRead w w
    later_round : {w v : W} → IsRead (next_round w) v → IsRead w v

  -- The pod shows a container of the name with a greater restart count than the initial one.
  abbrev pub HasRestarted : Pod → Type 0
  HasRestarted pod =
      Exists (λ (s : ContainerStatus). (s.name ≡ container) × (initial < s.restart_count))
        pod.container_statuses

  -- One of the reads of a wait from `w` that shows a restart.
  abbrev pub SawRestart : W → Type 0
  SawRestart w =
      (v : W) × (pod : Pod) × IsRead w v
      × ((get_pod namespace name v).0 ≡ ok pod)
      × HasRestarted pod

  has_restarted-HasRestarted :
      (pod : Pod) → has_restarted container initial pod ≡ true → HasRestarted pod
  unfolding has_restarted
  has_restarted-HasRestarted pod h =
      any-Exists _ _ (λ s e. ((eq_iff s.name container).0 (ground (arith, e)), ground (arith, e)))
        pod.container_statuses h

  poll_restart-saw :
      (rounds deadline : ℕ) (w : W)
      → (poll_restart r rounds deadline namespace name container initial w).0 ≡ some (ok tt)
      → SawRestart w
  unfolding poll_restart
  poll_restart-saw zero deadline w h = absurd (ground (arith, h))
  poll_restart-saw (suc rounds) deadline w h =
      let (found, w1) = get_pod namespace name w in
      let (t, w2) = now w1 in
      let (waited, w3) = wait second w2 in
      elim (Result-cases found) [
        | inr (e, q) ↦ absurd (ground (arith, q, h))
        | inl (current, q) ↦ elim (Bool-cases (has_restarted container initial current)) [
          | inl s ↦ (w, current, this_round, q, has_restarted-HasRestarted current s)
          | inr s ↦ elim (Bool-cases (ltb deadline t)) [
            | inl l ↦ absurd (ground (arith, q, s, l, h))
            | inr l ↦ elim (Result-cases waited) [
              | inr (e, v) ↦ absurd (ground (arith, q, s, l, v, h))
              | inl (u, v) ↦
                  let (x, pod, read, shows, more) =
                    poll_restart-saw rounds deadline w3 (ground (arith, q, s, l, v, h)) in
                  (x, pod, later_round read, shows, more)
            ]
          ]
        ]
      ]

  -- A wait for a restart succeeds only if one of its own reads of the pod, which follow each other after
  -- the reading of the clock and the pause, shows the container with a greater restart count than the
  -- initial one.
  pub wait_for_container_restart-saw :
      (w : W)
      → (wait_for_container_restart r namespace name container initial w).0 ≡ ok tt
      → SawRestart (now w).1
  unfolding wait_for_container_restart
  wait_for_container_restart-saw w h =
      poll_restart-saw restart_rounds ((now w).0 + restart_deadline) (now w).1 (ground (arith, h))
