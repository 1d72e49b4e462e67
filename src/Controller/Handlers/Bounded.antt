-- ===== src/Controller/Handlers/Bounded.antt =====
-- internal/controller/chaosexperiment_controller.go: how many pods a run attacks.
use k8s_chaos.Prelude.{
  ℕ, ◌+◌, ◌≤◌, ◌≡◌, String, List, [], ◌∷◌, Option, take, length, length-take, arith,
}
use k8s_chaos.Api.{ChaosExperiment, ChaosExperimentSpec, Pod}
use k8s_chaos.Client.{M}
use k8s_chaos.Webhook.Safety.{requested_count}
use k8s_chaos.Controller.Targets.{target_count}
use k8s_chaos.Controller.Handlers.Common.{Reconciler, attack_each}
use k8s_chaos.Controller.Handlers.Pods.{attack_pods}

module _ {W : Type 0} (r : Reconciler W) (hits : W → ℕ) where
  attack_each-bounded :
      (attack : Pod → M W (Option String)) (pods : List Pod) (w : W)
      → ((pod : Pod) (v : W) → hits (attack pod v).1 ≤ hits v + 1)
      → hits (attack_each r attack pods w).1 ≤ hits w + length pods
  unfolding attack_each
  attack_each-bounded attack [] w h = omega arith
  attack_each-bounded attack (x ∷ xs) w h =
      omega (arith, h x w, attack_each-bounded attack xs (attack x w).1 h)

  target_count-bounded :
      (spec : ChaosExperimentSpec) (pods : List Pod)
      → (target_count spec pods ≤ requested_count spec.count)
  unfolding target_count
  target_count-bounded spec pods = omega arith

  -- Where a shuffle does not count as a hit and an attack on one pod counts as one at most, a run of a
  -- pod handler makes no more hits than the count of the spec asks for, which is one where it is not
  -- positive.
  pub attack_pods-bounded :
      (exp : ChaosExperiment) (attack : Pod → M W (Option String)) (eligible : List Pod) (w : W)
      → hits (r.client.shuffle eligible w).1 ≡ hits w
      → ((pod : Pod) (v : W) → hits (attack pod v).1 ≤ hits v + 1)
      → hits (attack_pods r exp attack eligible w).1 ≤ hits w + requested_count exp.spec.count
  unfolding attack_pods
  attack_pods-bounded exp attack eligible w s h =
      let (shuffled, w1) = r.client.shuffle eligible w in
      let n = target_count exp.spec shuffled in
      let b = attack_each-bounded attack (take n shuffled) w1 h in
      let t = target_count-bounded exp.spec shuffled in
      omega (arith, b, t, s, length-take n shuffled)
