-- ===== src/Webhook/Actions.antt =====
-- api/v1alpha1/chaosexperiment_webhook.go: what each action requires of the spec, and
-- `validateCrossFieldConstraints`; api/v1alpha1/validation_helpers.go: the list of actions.
use k8s_chaos.Prelude.{String, List, [], ◌∷◌, Bool, ◌&&◌, ◌||◌, any, is_nonpos, ◌==◌, if◌then◌else◌}
use k8s_chaos.Go.{Result, ok, err, errorf, wrapf, str, end, ◌>>◌, refuse_if}
use k8s_chaos.Api.{ChaosExperimentSpec}
use k8s_chaos.Durations.Text.{validate_duration_format, validate_memory_size}
use k8s_chaos.Windows.Calendar.{Calendar}
use k8s_chaos.Windows.Validate.{validate_time_windows, validate_maintenance_windows}
use k8s_chaos.Webhook.Network.{
  Net, validate_ip, validate_cidr, validate_port_range, validate_each, validate_protocols,
}

abbrev pub valid_actions : List String
valid_actions =
    "pod-kill" ∷ "pod-delay" ∷ "node-drain" ∷ "pod-cpu-stress" ∷ "pod-memory-stress" ∷ "pod-failure"
    ∷ "pod-network-loss" ∷ "network-partition" ∷ "pod-disk-fill" ∷ "pod-restart" ∷ []

unfoldable pub is_valid_action : String → Bool
is_valid_action action = any (λ valid. action == valid) valid_actions

unfoldable pub require_duration : String → String → Result (Unit {0})
require_duration action duration =
    refuse_if (duration == "") (errorf "duration is required for %s action" (str action end))

unfoldable pub validate_cpu_stress_requirements : ChaosExperimentSpec → Result (Unit {0})
unfolding require_duration
validate_cpu_stress_requirements spec = do
  require_duration spec.action spec.duration
  refuse_if (is_nonpos spec.cpu_load)
      (errorf "cpuLoad must be specified and greater than 0 for %s action" (str spec.action end))

unfoldable pub validate_node_taint_requirements : ChaosExperimentSpec → Result (Unit {0})
unfolding require_duration
validate_node_taint_requirements spec = do
  require_duration spec.action spec.duration
  refuse_if (spec.taint_key == "") (errorf "taintKey must be specified for node-taint action" end)
  refuse_if (spec.taint_effect == "")
      (errorf "taintEffect must be specified for node-taint action" end)

unfoldable pub validate_memory_stress_requirements : ChaosExperimentSpec → Result (Unit {0})
unfolding require_duration validate_memory_size
validate_memory_stress_requirements spec = do
  require_duration spec.action spec.duration
  refuse_if (spec.memory_size == "")
      (errorf "memorySize must be specified for pod-memory-stress action" end)
  validate_memory_size spec.memory_size

unfoldable pub validate_network_loss_requirements : ChaosExperimentSpec → Result (Unit {0})
unfolding require_duration
validate_network_loss_requirements spec = do
  require_duration spec.action spec.duration
  refuse_if (is_nonpos spec.loss_percentage)
      (errorf "lossPercentage must be specified and greater than 0 for pod-network-loss action" end)

unfoldable pub validate_network_corruption_requirements : ChaosExperimentSpec → Result (Unit {0})
unfolding require_duration
validate_network_corruption_requirements spec = do
  require_duration spec.action spec.duration
  refuse_if (is_nonpos spec.corruption_percentage) (
      errorf
        "corruptionPercentage must be specified and greater than 0 for pod-network-corruption action"
        end)

-- Written out in `validateActionRequirements` and once more as `validateDiskFillRequirements`.
unfoldable pub validate_disk_fill_requirements : ChaosExperimentSpec → Result (Unit {0})
validate_disk_fill_requirements spec = do
  refuse_if (spec.duration == "") (errorf "duration is required for pod-disk-fill action" end)
  refuse_if (is_nonpos spec.fill_percentage)
      (errorf "fillPercentage must be specified and greater than 0 for pod-disk-fill action" end)
  refuse_if (spec.volume_name == "" && spec.target_path == "") (
      errorf "targetPath must be specified when volumeName is not set for pod-disk-fill action" end)

unfoldable pub validate_node_disk_fill_requirements : ChaosExperimentSpec → Result (Unit {0})
validate_node_disk_fill_requirements spec = do
  refuse_if (spec.duration == "") (errorf "duration is required for node-disk-fill action" end)
  refuse_if (is_nonpos spec.fill_percentage)
      (errorf "fillPercentage must be specified and greater than 0 for node-disk-fill action" end)

-- `for _, dep := range spec.DependsOn { if dep == name { return ... } }`.
unfoldable pub refuse_self_dependency : String → List String → Result (Unit {0})
refuse_self_dependency name deps =
    refuse_if (any (λ dep. dep == name) deps)
      (errorf "experiment cannot depend on itself: %s" (str name end))

-- `if err := check; err != nil { return fmt.Errorf(format, err) }`.
abbrev pub wrapped : String → Result (Unit {0}) → Result (Unit {0})
wrapped format (ok u) = ok u
wrapped format (err e) = err (wrapf format end e)

-- `if field != "" { if err := check; ... }`, and the same for `len(field) > 0`.
abbrev pub if_given : String → Result (Unit {0}) → Result (Unit {0})
if_given field check = if field == "" then ok tt else check

abbrev pub if_any {ℓ} : {A : Type ℓ} → List A → Result (Unit {0}) → Result (Unit {0})
if_any [] check = ok tt
if_any (x ∷ xs) check = check

module _ {Location Ip Cidr : Type 0} (cal : Calendar Location) (net : Net Ip Cidr)
    (parse_cron : String → Result (Unit {0})) where
  unfoldable pub validate_schedule : String → Result (Unit {0})
  validate_schedule schedule = if schedule == "" then ok tt else elim (parse_cron schedule) [
    | err e ↦ err (wrapf "invalid cron schedule %q: %w" (str schedule end) e)
    | ok _ ↦ ok tt
  ]

  unfoldable pub validate_network_partition_targets : ChaosExperimentSpec → Result (Unit {0})
  unfolding validate_each validate_protocols
  validate_network_partition_targets spec = do
    validate_each (validate_ip net) "targetIPs[%d]: %w" 0 spec.target_ips
    validate_each (validate_cidr net) "targetCIDRs[%d]: %w" 0 spec.target_cidrs
    validate_each validate_port_range "targetPorts[%d]: %w" 0 spec.target_ports
    validate_protocols 0 spec.target_protocols

  -- The `switch` on the action; an action that is not listed requires nothing.
  unfoldable pub validate_action_requirements : ChaosExperimentSpec → Result (Unit {0})
  unfolding require_duration
  validate_action_requirements spec =
      if spec.action == "pod-delay"
      then require_duration spec.action spec.duration
      else if spec.action == "pod-cpu-stress" || spec.action == "node-cpu-stress"
      then validate_cpu_stress_requirements spec
      else if spec.action == "node-taint"
      then validate_node_taint_requirements spec
      else if spec.action == "pod-memory-stress"
      then validate_memory_stress_requirements spec
      else if spec.action == "pod-network-loss"
      then validate_network_loss_requirements spec
      else if spec.action == "pod-network-corruption"
      then validate_network_corruption_requirements spec
      else if spec.action == "pod-disk-fill"
      then validate_disk_fill_requirements spec
      else if spec.action == "node-disk-fill"
      then validate_node_disk_fill_requirements spec
      else if spec.action == "network-partition"
      then (do require_duration spec.action spec.duration; validate_network_partition_targets spec)
      else ok tt

  unfoldable pub validate_cross_field_constraints : String → ChaosExperimentSpec → Result (Unit {0})
  unfolding refuse_self_dependency validate_schedule
  validate_cross_field_constraints name spec = do
    refuse_self_dependency name spec.depends_on
    if_given spec.duration (validate_duration_format spec.duration)
    if_given spec.experiment_duration (
        wrapped "invalid experimentDuration format: %w"
          (validate_duration_format spec.experiment_duration))
    if_given spec.schedule (validate_schedule spec.schedule)
    if_any spec.time_windows (validate_time_windows cal spec.time_windows)
    if_any spec.maintenance_windows (validate_maintenance_windows cal spec.maintenance_windows)
    if_given spec.restart_interval (
        wrapped "invalid restartInterval format: %w"
          (validate_duration_format spec.restart_interval))
    validate_action_requirements spec
