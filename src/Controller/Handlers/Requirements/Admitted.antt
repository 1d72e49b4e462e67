-- ===== src/Controller/Handlers/Requirements/Admitted.antt =====
-- api/v1alpha1/chaosexperiment_webhook.go and internal/controller/chaosexperiment_controller.go: what
-- the webhook admits, the handlers of eight actions accept.
use k8s_chaos.Prelude.{ℕ, refl, eq_iff, ◌≡◌, ◌≢◌, ◌⊎◌, inl, inr, String, false, arith, ◌==◌}
use k8s_chaos.Go.{wrapf, end, ◌>>◌, Result, ok}
use k8s_chaos.Api.{ChaosExperimentSpec}
use k8s_chaos.Windows.Calendar.{Calendar}
use k8s_chaos.Webhook.Network.{Net}
use k8s_chaos.Webhook.Actions.{
  require_duration, validate_action_requirements, validate_cross_field_constraints,
  validate_network_partition_targets,
}
use k8s_chaos.Controller.Errors.{ChaosError}
use k8s_chaos.Controller.Handlers.Requirements.{
  partition_requirements, direction_of, invalid, Checked, cpu_stress_requirements,
  memory_stress_requirements, network_loss_requirements, network_corruption_requirements,
  disk_fill_requirements, node_cpu_stress_requirements, node_disk_fill_requirements,
}
use k8s_chaos.Controller.Handlers.Requirements.Accepted.{
  IsAccepted, seconds-IsAccepted, at_action, cpu-IsAccepted, memory-IsAccepted, loss-IsAccepted,
  corruption-IsAccepted, fill-IsAccepted, node_cpu-IsAccepted, node_fill-IsAccepted,
}

-- What the schema of the resource asks of the namespace and the direction, which may be left out.
pub record MeetsSchema (spec : ChaosExperimentSpec) : Type 0 where
  pub named : spec.namespace ≢ ""
  pub directed :
      ((spec.direction ≡ "") ⊎ (spec.direction ≡ "both"))
      ⊎ ((spec.direction ≡ "ingress") ⊎ (spec.direction ≡ "egress"))

-- What the handler of an action requires of the spec before it looks for targets.
pub data Requires : String → (ChaosExperimentSpec → Checked ChaosError ℕ) → Type 0 where
  cpu_stress : Requires "pod-cpu-stress" cpu_stress_requirements
  memory_stress : Requires "pod-memory-stress" memory_stress_requirements
  network_loss : Requires "pod-network-loss" network_loss_requirements
  network_corruption : Requires "pod-network-corruption" network_corruption_requirements
  disk_fill : Requires "pod-disk-fill" disk_fill_requirements
  partition : Requires "network-partition" partition_requirements
  node_cpu_stress : Requires "node-cpu-stress" node_cpu_stress_requirements
  node_disk_fill : Requires "node-disk-fill" node_disk_fill_requirements

module _ {Location Ip Cidr : Type 0} (cal : Calendar Location) (net : Net Ip Cidr)
    (parse_cron : String → Result (Unit {0})) (name : String) (spec : ChaosExperimentSpec)
    (admitted : validate_cross_field_constraints cal net parse_cron name spec ≡ ok tt) where
  -- The check that the webhook makes of a network partition.
  abbrev check_partition : ChaosExperimentSpec → Result (Unit {0})
  check_partition given = do
    require_duration given.action given.duration
    validate_network_partition_targets cal net parse_cron given

  -- A direction that the schema admits is known to the handler.
  abbrev KnownDirection : Type 0
  KnownDirection =
      (direction_of spec ≡ "both")
      ⊎ ((direction_of spec ≡ "ingress") ⊎ (direction_of spec ≡ "egress"))

  direction_of-known : MeetsSchema spec → KnownDirection
  unfolding direction_of
  direction_of-known m = elim m.directed [
    | inl (inl e) ↦ inl (rw (e) refl)
    | inl (inr e) ↦ inl (rw (e) refl)
    | inr (inl e) ↦ inr (inl (rw (e) refl))
    | inr (inr e) ↦ inr (inr (rw (e) refl))
  ]

  partition-IsAccepted :
      spec.action ≡ "network-partition"
      → MeetsSchema spec
      → IsAccepted (partition_requirements spec)
  unfolding partition_requirements validate_action_requirements require_duration
  partition-IsAccepted e m =
      let c =
        at_action cal net parse_cron name spec admitted check_partition "network-partition" refl
          e in
      let d : (spec.duration == "") ≡ false = ground (arith, c) in
      let s =
        seconds-IsAccepted cal net parse_cron name spec admitted
          (λ e'.
            invalid "parse network-partition duration" (wrapf "invalid duration format: %w" end e'))
          d in
      elim (direction_of-known m) [
        | inl b ↦ let q = (eq_iff (direction_of spec) "both").1 b in ground (arith, d, s, q)
        | inr (inl b) ↦
            let q = (eq_iff (direction_of spec) "ingress").1 b in ground (arith, d, s, q)
        | inr (inr b) ↦ let q = (eq_iff (direction_of spec) "egress").1 b in ground (arith, d, s, q)
      ]

  Requires-IsAccepted :
      (action : String) (requirements : ChaosExperimentSpec → Checked ChaosError ℕ)
      → Requires action requirements
      → spec.action ≡ action
      → MeetsSchema spec
      → IsAccepted (requirements spec)
  Requires-IsAccepted _ _ cpu_stress e m =
      cpu-IsAccepted cal net parse_cron name spec admitted e (m.named)
  Requires-IsAccepted _ _ memory_stress e n =
      memory-IsAccepted cal net parse_cron name spec admitted e
  Requires-IsAccepted _ _ network_loss e n = loss-IsAccepted cal net parse_cron name spec admitted e
  Requires-IsAccepted _ _ network_corruption e n =
      corruption-IsAccepted cal net parse_cron name spec admitted e (n.named)
  Requires-IsAccepted _ _ disk_fill e n = fill-IsAccepted cal net parse_cron name spec admitted e
  Requires-IsAccepted _ _ partition e m = partition-IsAccepted e m
  Requires-IsAccepted _ _ node_cpu_stress e n =
      node_cpu-IsAccepted cal net parse_cron name spec admitted e
  Requires-IsAccepted _ _ node_disk_fill e n =
      node_fill-IsAccepted cal net parse_cron name spec admitted e

  -- A spec that passes the webhook's checks across fields meets what the handler of its action requires
  -- before it looks for targets, where it has a namespace and its direction is empty, both, ingress or
  -- egress, and the action is pod-cpu-stress, pod-memory-stress, pod-network-loss,
  -- pod-network-corruption, pod-disk-fill, network-partition, node-cpu-stress or node-disk-fill: the
  -- handler's checks accept the spec.
  pub admitted-IsAccepted :
      (requirements : ChaosExperimentSpec → Checked ChaosError ℕ)
      → Requires spec.action requirements
      → MeetsSchema spec
      → IsAccepted (requirements spec)
  admitted-IsAccepted requirements r m = Requires-IsAccepted spec.action requirements r refl m
