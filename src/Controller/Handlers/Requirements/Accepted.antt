-- ===== src/Controller/Handlers/Requirements/Accepted.antt =====
-- api/v1alpha1/chaosexperiment_webhook.go and internal/controller/chaosexperiment_controller.go: what
-- each handler requires of a spec that the webhook admits.
use k8s_chaos.Prelude.{
  refl, eq_iff, ◌≡◌, ◌≢◌, ◌∙◌, sym, inl, inr, String, false, arith, Bool-cases, ◌==◌,
}
use mathlib.Core.Path.{subst}
use k8s_chaos.Go.{errorf, wrapf, str, end, GoError, Result, ok, err, IsOk, is_ok}
use k8s_chaos.Api.{ChaosExperimentSpec}
use k8s_chaos.Durations.Text.{validate_duration_format}
use k8s_chaos.Durations.Parse.{parse_duration, parse_duration_to_seconds}
use k8s_chaos.Durations.Grammar.{parse_duration-validated}
use k8s_chaos.Windows.Calendar.{Calendar}
use k8s_chaos.Webhook.Network.{Net}
use k8s_chaos.Webhook.Actions.{
  require_duration, if_given, validate_action_requirements, validate_cross_field_constraints,
  validate_cpu_stress_requirements, validate_memory_stress_requirements,
  validate_network_loss_requirements, validate_network_corruption_requirements,
  validate_disk_fill_requirements, validate_node_disk_fill_requirements,
}
use k8s_chaos.Controller.Handlers.Requirements.{
  invalid, Checked, accepted, seconds_of, cpu_stress_requirements, memory_stress_requirements,
  network_loss_requirements, network_corruption_requirements, disk_fill_requirements,
  node_cpu_stress_requirements, node_disk_fill_requirements,
}

pub data IsAccepted {E A : Type 0} : Checked E A → Type 0 where
  is_accepted : (a : A) → IsAccepted (accepted a)

IsOk-value : {A : Type 0} (result : Result A) → IsOk result → (a : A) × (result ≡ ok a)
IsOk-value (ok a) (is_ok _) = (a, refl)
IsOk-value (err e) k = elim k [ ]

not_empty : (s : String) → s ≢ "" → (s == "") ≡ false
not_empty s n = elim (Bool-cases (s == "")) [ inl e ↦ absurd (n ((eq_iff s "").0 e)) | inr e ↦ e ]

empty-not : (s : String) → (s == "") ≡ false → s ≢ ""
empty-not s e n = let q = (eq_iff s "").1 n in ground (arith, e, q)

seconds_of-IsAccepted :
    {E : Type 0} (explain : GoError → E) (d : String)
    → d ≢ ""
    → validate_duration_format d ≡ ok tt
    → IsAccepted (seconds_of explain d)
unfolding seconds_of parse_duration_to_seconds
seconds_of-IsAccepted explain d n h =
    let (gs, groups, e, parsed, exact) = parse_duration-validated d n h in
    let (v, q) = IsOk-value (parse_duration d) parsed in rw (seconds_of, q) (is_accepted _)

module _ {Location Ip Cidr : Type 0} (cal : Calendar Location) (net : Net Ip Cidr)
    (parse_cron : String → Result (Unit {0})) (name : String) (spec : ChaosExperimentSpec)
    (admitted : validate_cross_field_constraints cal net parse_cron name spec ≡ ok tt) where
  duration_checked : if_given spec.duration (validate_duration_format spec.duration) ≡ ok tt
  unfolding validate_cross_field_constraints
  duration_checked = ground (arith, admitted)

  action_checked : validate_action_requirements cal net parse_cron spec ≡ ok tt
  unfolding validate_cross_field_constraints
  action_checked = ground (arith, admitted)

  pub seconds-IsAccepted :
      {E : Type 0} (explain : GoError → E)
      → (spec.duration == "") ≡ false
      → IsAccepted (seconds_of explain spec.duration)
  seconds-IsAccepted explain e =
      let d = duration_checked in
      seconds_of-IsAccepted explain spec.duration (empty-not spec.duration e) (ground (arith, d, e))

  pub at_action :
      (check : ChaosExperimentSpec → Result (Unit {0})) (a : String)
      → validate_action_requirements cal net parse_cron (record spec { action = a })
        ≡ check (record spec { action = a })
      → spec.action ≡ a
      → check spec ≡ ok tt
  at_action check a q e =
      sym (
        subst
          (λ x.
            validate_action_requirements cal net parse_cron (record spec { action = x })
            ≡ check (record spec { action = x }))
          (sym e) q)
      ∙ action_checked

  pub cpu-IsAccepted :
      spec.action ≡ "pod-cpu-stress"
      → spec.namespace ≢ ""
      → IsAccepted (cpu_stress_requirements spec)
  unfolding cpu_stress_requirements validate_action_requirements validate_cpu_stress_requirements
      require_duration
  cpu-IsAccepted e n =
      let m = not_empty spec.namespace n in
      let c = at_action validate_cpu_stress_requirements "pod-cpu-stress" refl e in
      let d : (spec.duration == "") ≡ false = ground (arith, c) in
      let s =
        seconds-IsAccepted
          (λ e'. invalid "" (wrapf "invalid duration format: %s: %w" (str spec.duration end) e'))
          d in
      ground (arith, c, d, m, s)

  pub memory-IsAccepted :
      spec.action ≡ "pod-memory-stress" → IsAccepted (memory_stress_requirements spec)
  unfolding memory_stress_requirements validate_action_requirements
      validate_memory_stress_requirements require_duration
  memory-IsAccepted e =
      let c = at_action validate_memory_stress_requirements "pod-memory-stress" refl e in
      let d : (spec.duration == "") ≡ false = ground (arith, c) in
      let s =
        seconds-IsAccepted (λ e'. invalid "" (wrapf "invalid duration format: %w" end e')) d in
      ground (arith, c, d, s)

  pub loss-IsAccepted :
      spec.action ≡ "pod-network-loss" → IsAccepted (network_loss_requirements spec)
  unfolding network_loss_requirements validate_action_requirements
      validate_network_loss_requirements require_duration
  loss-IsAccepted e =
      let c = at_action validate_network_loss_requirements "pod-network-loss" refl e in
      let d : (spec.duration == "") ≡ false = ground (arith, c) in
      let s =
        seconds-IsAccepted (λ e'. invalid "" (wrapf "invalid duration format: %w" end e')) d in
      ground (arith, c, d, s)

  pub corruption-IsAccepted :
      spec.action ≡ "pod-network-corruption"
      → spec.namespace ≢ ""
      → IsAccepted (network_corruption_requirements spec)
  unfolding network_corruption_requirements validate_action_requirements
      validate_network_corruption_requirements require_duration
  corruption-IsAccepted e n =
      let m = not_empty spec.namespace n in
      let c = at_action validate_network_corruption_requirements "pod-network-corruption" refl e in
      let d : (spec.duration == "") ≡ false = ground (arith, c) in
      let s =
        seconds-IsAccepted
          (λ e'.
            invalid "parse pod-network-corruption duration"
              (wrapf "invalid duration format: %w" end e'))
          d in
      ground (arith, c, d, m, s)

  pub fill-IsAccepted : spec.action ≡ "pod-disk-fill" → IsAccepted (disk_fill_requirements spec)
  unfolding disk_fill_requirements validate_action_requirements validate_disk_fill_requirements
  fill-IsAccepted e =
      let c = at_action validate_disk_fill_requirements "pod-disk-fill" refl e in
      let d : (spec.duration == "") ≡ false = ground (arith, c) in
      let s =
        seconds-IsAccepted (λ e'. invalid "" (wrapf "invalid duration format: %w" end e')) d in
      ground (arith, c, d, s)

  pub node_cpu-IsAccepted :
      spec.action ≡ "node-cpu-stress" → IsAccepted (node_cpu_stress_requirements spec)
  unfolding node_cpu_stress_requirements validate_action_requirements
      validate_cpu_stress_requirements require_duration
  node_cpu-IsAccepted e =
      let c = at_action validate_cpu_stress_requirements "node-cpu-stress" refl e in
      let d : (spec.duration == "") ≡ false = ground (arith, c) in
      let s =
        seconds-IsAccepted
          (λ e'.
            invalid "parse node-cpu-stress duration"
              (errorf "invalid duration format: %s" (str spec.duration end)))
          d in
      ground (arith, c, d, s)

  pub node_fill-IsAccepted :
      spec.action ≡ "node-disk-fill" → IsAccepted (node_disk_fill_requirements spec)
  unfolding node_disk_fill_requirements validate_action_requirements
      validate_node_disk_fill_requirements
  node_fill-IsAccepted e =
      let c = at_action validate_node_disk_fill_requirements "node-disk-fill" refl e in
      let d : (spec.duration == "") ≡ false = ground (arith, c) in
      let s =
        seconds-IsAccepted
          (λ e'.
            invalid "parse node-disk-fill duration"
              (errorf "invalid duration format: %s" (str spec.duration end)))
          d in
      ground (arith, c, d, s)
