-- ===== src/Controller/Ephemeral/Injection.antt =====
-- internal/controller/chaosexperiment_controller.go, `updatePodWithEphemeralContainer`: its attempts.
use k8s_chaos.Prelude.{
  ℕ, zero, suc, ◌+◌, ◌*◌, ◌≤◌, ◌∷◌, [], ◌++◌, String, ◌≡◌, Bool, eqb, arith, inl, inr, Option-cases,
}
use k8s_chaos.Go.{Message, Result-cases}
use k8s_chaos.Api.{Pod, EphemeralContainer}
use k8s_chaos.Controller.Frame.{Keeps}
use k8s_chaos.Client.{Client}
use k8s_chaos.Controller.Ephemeral.{
  try_update, inject_attempts, update_pod_with_ephemeral_container,
}

-- A count of the calls that add an ephemeral container.
pub record CountsUpdates {W : Type 0} (c : Client W) (calls : W → ℕ) : Type 0 where
  pub reads : (namespace name : String) (w : W) → calls (c.get_pod namespace name w).1 ≡ calls w
  pub sleeps : (n : ℕ) (w : W) → calls (c.sleep n w).1 ≡ calls w
  pub updates : (pod : Pod) (w : W) → calls (c.update_ephemeral_containers pod w).1 ≡ calls w + 1

module _ {W : Type 0} (c : Client W) (calls : W → ℕ) (counts : CountsUpdates c calls)
    (sprintf : Message → String) where
  try_update-calls :
      (pod : Pod) (k : EphemeralContainer) (attempt : ℕ) (last : Bool) (w : W)
      → calls (try_update c sprintf pod k attempt last w).1 ≤ calls w + 1
  unfolding try_update
  try_update-calls pod k attempt last w =
      let g = counts.reads pod.namespace pod.name w in
      let (found, w1) = c.get_pod pod.namespace pod.name w in
      elim (Result-cases found) [
        | inl (current, e) ↦
            let grown = record current {
              ephemeral_containers = current.ephemeral_containers ++ k ∷ [];
            } in
            let u = counts.updates grown w1 in ground (arith, e, g, u)
        | inr (_, e) ↦ ground (arith, e, g)
      ]

  inject_attempts-calls :
      (pod : Pod) (k : EphemeralContainer) (left attempt backoff : ℕ) (w : W)
      → calls (inject_attempts c sprintf pod k left attempt backoff w).1 ≤ calls w + left
  unfolding inject_attempts
  inject_attempts-calls pod k zero attempt backoff w = omega arith
  inject_attempts-calls pod k (suc left) attempt backoff w =
      let (tried, w1) = try_update c sprintf pod k attempt (eqb left 0) w in
      let t = try_update-calls pod k attempt (eqb left 0) w in
      let s = counts.sleeps backoff w1 in
      let ih =
        inject_attempts-calls pod k left (attempt + 1) (2 * backoff) (c.sleep backoff w1).1 in
      elim (Option-cases tried) [
        | inl e ↦ ground (arith, e, t, s, ih)
        | inr (r, e) ↦ ground (arith, e, t)
      ]

  -- Where a count goes up by one with each update of ephemeral containers, and not with a read of a pod
  -- or a pause, an injection adds at most five to it, whatever the API server answers.
  pub update_pod-bounded :
      (pod : Pod) (k : EphemeralContainer) (w : W)
      → calls (update_pod_with_ephemeral_container c sprintf pod k w).1 ≤ calls w + 5
  unfolding update_pod_with_ephemeral_container
  update_pod-bounded pod k w = inject_attempts-calls pod k 5 0 100000000 w

module _ {W : Type 0} (c : Client W) (P : W → Type 0)
    (reads : (namespace name : String) → Keeps P (c.get_pod namespace name))
    (updates : (p : Pod) → Keeps P (c.update_ephemeral_containers p))
    (sleeps : (d : ℕ) → Keeps P (c.sleep d)) (sprintf : Message → String) where
  try_update-Keeps :
      (pod : Pod) (container : EphemeralContainer) (attempt : ℕ) (last : Bool)
      → Keeps P (try_update c sprintf pod container attempt last)
  unfolding try_update
  try_update-Keeps pod container attempt last w p = grind (arith, reads, updates)

  inject_attempts-Keeps :
      (pod : Pod) (container : EphemeralContainer) (left attempt backoff : ℕ)
      → Keeps P (inject_attempts c sprintf pod container left attempt backoff)
  unfolding inject_attempts
  inject_attempts-Keeps pod container zero attempt backoff w p = p
  inject_attempts-Keeps pod container (suc left) attempt backoff w p =
      let ih = inject_attempts-Keeps pod container left (attempt + 1) (2 * backoff) in
      grind (arith, try_update-Keeps, sleeps, ih)

  -- An injection only reads pods, updates their ephemeral containers and sleeps.
  pub update_pod-Keeps :
      (pod : Pod) (container : EphemeralContainer)
      → Keeps P (update_pod_with_ephemeral_container c sprintf pod container)
  unfolding update_pod_with_ephemeral_container
  update_pod-Keeps pod container = inject_attempts-Keeps pod container 5 0 100000000
