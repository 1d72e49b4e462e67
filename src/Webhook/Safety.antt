-- ===== src/Webhook/Safety.antt =====
-- api/v1alpha1/chaosexperiment_webhook.go: production namespaces, exclusion and the percentage limit.
use text.Mathlib.Text.{starts_with}
use k8s_chaos.Prelude.{
  ℕ, ℤ, ◌-◌, String, List, [], ◌∷◌, ◌++◌, Bool, true, false, ◌&&◌, ◌||◌, not, Option, none, some,
  select, length, ltb, eqb, is_nonpos, exceeds, to_ℕ, ◌==◌, if◌then◌else◌,
}
use k8s_chaos.Go.{Message, lit, fmt, GoError, Result, ok, err, errorf, str, num, float, msg, end}
use k8s_chaos.Api.{
  ChaosExperiment, ChaosExperimentSpec, Pod, Namespace, exclusion_label, production_annotation,
  production_label, production_label_value, has_entry,
}
use k8s_chaos.Client.{M, ◌>>=◌, ◌>>◌, return, Client}
use k8s_chaos.Float64.{Float, of_int, div, mul, greater, truncate}
use k8s_chaos.Webhook.Network.{Net, is_dangerous_target, is_dangerous_cidr}

abbrev pub prod_env_value : String
prod_env_value = "prod"

-- `strings.HasPrefix` and `strings.HasSuffix`.
abbrev pub has_suffix : String → String → Bool
has_suffix String.[] p = p == ""
has_suffix (String.◌∷◌ c s) p =
    let rest = has_suffix s p in if String.◌∷◌ c s == p then true else rest

-- The four ways in which a namespace is marked or named as production.
unfoldable pub is_production : Namespace → String → Bool
is_production ns name =
    has_entry production_annotation "true" ns.annotations
    || has_entry production_label production_label_value ns.labels
    || has_entry production_label prod_env_value ns.labels
    || has_entry "env" prod_env_value ns.labels
    || name == "production"
    || name == prod_env_value
    || starts_with name "prod-"
    || starts_with name "production-"
    || has_suffix name "-prod"
    || has_suffix name "-production"

-- The loop of `filterExcludedPods`.
unfoldable pub filter_excluded_pods : List Pod → List Pod
filter_excluded_pods pods = select (λ pod. not (has_entry exclusion_label "true" pod.labels)) pods

-- `if count <= 0 { count = 1 }`.
unfoldable pub requested_count : ℤ → ℕ
requested_count count = if is_nonpos count then 1 else to_ℕ count

-- `(float64(count) / float64(totalPods)) * 100`.
unfoldable pub actual_percentage : ℕ → ℕ → Float
unfolding of_int div mul
actual_percentage count total = mul (div (of_int count) (of_int total)) (of_int 100)

unfoldable pub exceeds_percentage : ℕ → ℕ → ℕ → Bool
unfolding actual_percentage greater
exceeds_percentage count total limit = greater (actual_percentage count total) (of_int limit)

-- `int(float64(totalPods)*float64(exp.Spec.MaxPercentage)/100)`.
unfoldable pub suggested_count : ℕ → ℕ → ℕ
unfolding of_int div mul truncate
suggested_count total limit = truncate (div (mul (of_int total) (of_int limit)) (of_int 100))

percentage_error : ℕ → ℕ → ℕ → GoError
unfolding actual_percentage suggested_count
percentage_error count total limit =
    let actual = actual_percentage count total in
    errorf
      "count (%d) would affect %.1f%% of pods, exceeding maxPercentage limit of %d%%: reduce count to %d or lower"
      (num count (float actual.num actual.den (num limit (num (suggested_count total limit) end))))

module _ {W : Type 0} (c : Client W) where
  open c use {metric, get_namespace}

  unfoldable pub validate_production_namespace : ChaosExperiment → M W (Result (Unit {0}))
  unfolding is_production
  validate_production_namespace exp = if exp.spec.allow_production then return (ok tt) else do
    found ← get_namespace exp.spec.namespace
    elim found [
      | err _ ↦ return (ok tt)
      | ok ns ↦
          if is_production ns exp.spec.namespace
          then (do
            metric "chaosexperiment_safety_production_blocks_total"
                (exp.spec.action ∷ exp.spec.namespace ∷ []) 1
            return (
                err (
                  errorf
                    "chaos experiments in production namespace %q require explicit approval: set allowProduction: true"
                    (str exp.spec.namespace end))))
          else return (ok tt)
    ]

  unfoldable pub validate_max_percentage : ChaosExperiment → List Pod → M W (Result (Unit {0}))
  unfolding requested_count exceeds_percentage percentage_error
  validate_max_percentage exp eligible =
      let total = length eligible in
      let count = requested_count exp.spec.count in
      let limit = to_ℕ exp.spec.max_percentage in
      if eqb total 0
      then return (ok tt)
      else if exceeds_percentage count total limit
      then (do
        metric "chaosexperiment_safety_percentage_violations_total"
            (exp.spec.action ∷ exp.spec.namespace ∷ []) 1
        return (err (percentage_error count total limit)))
      else return (ok tt)

-- `append(warnings, ...)` where a condition holds.
abbrev pub warn_if : Bool → Message → List Message
warn_if true m = m ∷ []
warn_if false m = []

module _ {Ip Cidr : Type 0} (net : Net Ip Cidr) where
  -- The loop over the targets that appends a warning for each dangerous one.
  danger_warnings : (String → Option Message) → String → List String → List Message
  danger_warnings reason format [] = []
  danger_warnings reason format (t ∷ ts) =
      let rest = danger_warnings reason format ts in
      elim (reason t) [ none ↦ rest | some r ↦ fmt format (str t (msg r end)) ∷ rest ]

  abbrev no_protocols : ChaosExperimentSpec → Bool
  no_protocols spec = not (eqb (length spec.target_ports) 0) && eqb (length spec.target_protocols) 0

  unfoldable pub partition_warnings : ChaosExperimentSpec → List Message
  unfolding danger_warnings is_dangerous_target is_dangerous_cidr
  partition_warnings spec =
      if spec.action == "network-partition"
      then danger_warnings (is_dangerous_target net) "WARNING: Targeting %s - %s" spec.target_ips
        ++ (danger_warnings (is_dangerous_cidr net) "WARNING: Targeting CIDR %s - %s"
              spec.target_cidrs
            ++ warn_if (no_protocols spec)
                (lit "No targetProtocols specified; will default to TCP for all target ports"))
      else []

  unfoldable pub safety_warnings : ChaosExperimentSpec → ℕ → ℕ → List Message
  unfolding partition_warnings
  safety_warnings spec matched eligible =
      warn_if (ltb eligible matched) (
        fmt "%d pod(s) excluded via %s label. %d eligible pods remain."
          (num (matched - eligible) (str exclusion_label (num eligible end))))
      ++ (warn_if spec.dry_run (lit "DRY RUN mode enabled: No actual chaos will be executed")
          ++ partition_warnings spec)

  -- The code returns no warning beside an error.
  unfoldable pub validate_safety_constraints :
      {W : Type 0} → Client W → ChaosExperiment → List Pod → M W (Result (List Message))
  unfolding filter_excluded_pods safety_warnings
  validate_safety_constraints c exp matched = do
    production ← validate_production_namespace c exp
    elim production [
      | err e ↦ return (err e)
      | ok _ ↦
          let eligible = filter_excluded_pods matched in
          if eqb (length eligible) 0 && not (eqb (length matched) 0)
          then return (
              err (
                errorf "all %d matching pods are excluded via %s label"
                  (num (length matched) (str exclusion_label end))))
          else do
            percentage ←
                (if exceeds exp.spec.max_percentage 0
                  then validate_max_percentage c exp eligible
                  else return (ok tt))
            elim percentage [
              | err e ↦ return (err e)
              | ok _ ↦ return (ok (safety_warnings exp.spec (length matched) (length eligible)))
            ]
    ]
