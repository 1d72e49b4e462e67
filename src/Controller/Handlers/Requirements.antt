-- ===== src/Controller/Handlers/Requirements.antt =====
-- internal/controller/chaosexperiment_controller.go: what the handlers require of the spec before they
-- look for targets.
pub mod Accepted
pub mod Admitted
use k8s_chaos.Prelude.{ℕ, String, Bool, not, ◌&&◌, is_nonpos, ◌==◌, if◌then◌else◌}
use k8s_chaos.Go.{Message, lit, fmt, GoError, ok, err, errorf, wrapf, str, end}
use k8s_chaos.Api.{ChaosExperimentSpec}
use k8s_chaos.Durations.Parse.{parse_duration_to_ms, parse_duration_to_seconds}
use k8s_chaos.Controller.Errors.{ChaosError, validation, of_type}

-- A handler goes on with a value, or returns at once because of the error.
pub data Checked (E A : Type 0) : Type 0 where
  refused : E → Checked E A
  accepted : A → Checked E A

infixl 5 ◌>>◌
abbrev ◌>>◌ : {E A : Type 0} → Checked E (Unit {0}) → Checked E A → Checked E A
refused e >> next = refused e
accepted _ >> next = next

abbrev refuse_when : {E : Type 0} → Bool → E → Checked E (Unit {0})
refuse_when b e = if b then refused e else accepted tt

-- `&ChaosError{Original: e, Type: ErrorTypeValidation, Operation: operation}`.
abbrev pub invalid : String → GoError → ChaosError
invalid operation e = record (of_type e validation) { operation = operation }

-- `parseDurationToSeconds`, or `parseDuration` and `int(duration.Seconds())`.
unfoldable pub seconds_of : {E : Type 0} → (GoError → E) → String → Checked E ℕ
seconds_of explain duration = elim (parse_duration_to_seconds duration) [
  | err e ↦ refused (explain e)
  | ok seconds ↦ accepted seconds
]

-- The error of a handler that wraps the error of the parser.
abbrev bad_format : String → GoError → ChaosError
bad_format operation e = invalid operation (wrapf "invalid duration format: %w" end e)

abbrev missing_namespace : GoError
missing_namespace = errorf "namespace not specified" end

unfoldable pub delay_requirements : ChaosExperimentSpec → Checked Message ℕ
delay_requirements spec = do
  refuse_when (spec.namespace == "") (lit "Error: Namespace not specified")
  refuse_when (spec.duration == "") (lit "Error: Duration is required for pod-delay action")
  elim (parse_duration_to_ms spec.duration) [
    | err e ↦ refused (fmt "Error: Invalid duration format: %s" (str spec.duration end))
    | ok delay_ms ↦ accepted delay_ms
  ]

unfoldable pub cpu_stress_requirements : ChaosExperimentSpec → Checked ChaosError ℕ
unfolding seconds_of
cpu_stress_requirements spec = do
  refuse_when (spec.namespace == "") (invalid "" missing_namespace)
  refuse_when (is_nonpos spec.cpu_load)
      (invalid "" (errorf "CPULoad must be specified and greater than 0 for pod-cpu-stress" end))
  refuse_when (spec.duration == "")
      (invalid "" (errorf "duration is required for pod-cpu-stress action" end))
  seconds_of (λ e. invalid "" (wrapf "invalid duration format: %s: %w" (str spec.duration end) e))
      spec.duration

unfoldable pub memory_stress_requirements : ChaosExperimentSpec → Checked ChaosError ℕ
unfolding seconds_of
memory_stress_requirements spec = do
  refuse_when (spec.duration == "")
      (invalid "" (errorf "duration is required for pod-memory-stress action" end))
  refuse_when (spec.memory_size == "")
      (invalid "" (errorf "memorySize must be specified for pod-memory-stress action" end))
  seconds_of (bad_format "") spec.duration

unfoldable pub network_loss_requirements : ChaosExperimentSpec → Checked ChaosError ℕ
unfolding seconds_of
network_loss_requirements spec = do
  refuse_when (spec.duration == "")
      (invalid "" (errorf "duration is required for pod-network-loss action" end))
  refuse_when (is_nonpos spec.loss_percentage) (
      invalid "" (
        errorf "lossPercentage must be specified and greater than 0 for pod-network-loss action"
          end))
  seconds_of (bad_format "") spec.duration

unfoldable pub network_corruption_requirements : ChaosExperimentSpec → Checked ChaosError ℕ
unfolding seconds_of
network_corruption_requirements spec = do
  refuse_when (spec.namespace == "")
      (invalid "validate pod-network-corruption config" missing_namespace)
  refuse_when (is_nonpos spec.corruption_percentage) (
      invalid "validate pod-network-corruption config"
        (errorf "CorruptionPercentage must be greater than 0" end))
  refuse_when (spec.duration == "") (
      invalid "validate pod-network-corruption config"
        (errorf "duration is required for network corruption" end))
  seconds_of (bad_format "parse pod-network-corruption duration") spec.duration

unfoldable pub disk_fill_requirements : ChaosExperimentSpec → Checked ChaosError ℕ
unfolding seconds_of
disk_fill_requirements spec = do
  refuse_when (spec.duration == "")
      (invalid "" (errorf "duration is required for pod-disk-fill action" end))
  seconds_of (bad_format "") spec.duration

-- `direction`, which is "both" by default.
unfoldable pub direction_of : ChaosExperimentSpec → String
direction_of spec = if spec.direction == "" then "both" else spec.direction

unfoldable pub partition_requirements : ChaosExperimentSpec → Checked ChaosError ℕ
unfolding seconds_of direction_of
partition_requirements spec = do
  refuse_when (spec.duration == "") (
      invalid "validate network-partition config"
        (errorf "duration is required for network-partition action" end))
  refuse_when
      (not (direction_of spec == "both")
        && not (direction_of spec == "ingress")
        && not (direction_of spec == "egress"))
      (invalid "validate network-partition direction" (
        errorf "invalid direction: %s. Must be one of: both, ingress, egress"
          (str (direction_of spec) end)))
  seconds_of (bad_format "parse network-partition duration") spec.duration

-- The handlers of nodes do not wrap the error of the parser.
abbrev bad_node_format : String → String → GoError → ChaosError
bad_node_format operation duration e =
    invalid operation (errorf "invalid duration format: %s" (str duration end))

unfoldable pub node_cpu_stress_requirements : ChaosExperimentSpec → Checked ChaosError ℕ
unfolding seconds_of
node_cpu_stress_requirements spec = do
  refuse_when (is_nonpos spec.cpu_load) (
      invalid "validate node-cpu-stress config"
        (errorf "CPULoad must be specified and greater than 0 for node-cpu-stress" end))
  refuse_when (spec.duration == "") (
      invalid "validate node-cpu-stress config"
        (errorf "duration is required for node-cpu-stress action" end))
  seconds_of (bad_node_format "parse node-cpu-stress duration" spec.duration) spec.duration

unfoldable pub node_disk_fill_requirements : ChaosExperimentSpec → Checked ChaosError ℕ
unfolding seconds_of
node_disk_fill_requirements spec = do
  refuse_when (spec.duration == "") (
      invalid "validate node-disk-fill config"
        (errorf "duration is required for node-disk-fill action" end))
  seconds_of (bad_node_format "parse node-disk-fill duration" spec.duration) spec.duration
