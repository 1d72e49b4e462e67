-- ===== src/Webhook/Create.antt =====
-- api/v1alpha1/chaosexperiment_webhook.go: `ValidateCreate`, `ValidateUpdate` and `ValidateDelete`.
pub mod Safe
use k8s_chaos.Prelude.{String, List, [], ◌∷◌, ◌++◌, length, exceeds, if◌then◌else◌}
use k8s_chaos.Go.{Message, fmt, is_not_found, Result, ok, err, errorf, wrapf, str, int, num, end}
use k8s_chaos.Api.{ChaosExperiment, Pod}
use k8s_chaos.Client.{M, ◌>>=◌, return, Client}
use k8s_chaos.Windows.Calendar.{Calendar}
use k8s_chaos.Webhook.Network.{Net}
use k8s_chaos.Webhook.Actions.{validate_cross_field_constraints}
use k8s_chaos.Webhook.Safety.{validate_safety_constraints, warn_if}

-- `admission.Warnings, error`.
abbrev pub Admission : Type 0
Admission = List Message × Result (Unit {0})

module _ {W : Type 0} (c : Client W) where
  open c use {get_namespace, list_pods}

  unfoldable pub validate_namespace_exists : String → M W (Result (Unit {0}))
  validate_namespace_exists namespace = do
    found ← get_namespace namespace
    elim found [
      | ok _ ↦ return (ok tt)
      | err e ↦
          if is_not_found e
          then return (err (errorf "target namespace %q does not exist" (str namespace end)))
          else return (err (wrapf "failed to validate namespace existence: %w" end e))
    ]

  unfoldable pub validate_selector_effectiveness :
      String → List (String × String) → M W (Result (List Pod))
  validate_selector_effectiveness namespace selector = do
    listed ← list_pods namespace selector
    elim listed [
      | err e ↦ return (err (wrapf "failed to list pods with selector: %w" end e))
      | ok [] ↦
          return
            (err (errorf "selector does not match any pods in namespace %q" (str namespace end)))
      | ok (p ∷ ps) ↦ return (ok (p ∷ ps))
    ]

  module _ {Location Ip Cidr : Type 0} (cal : Calendar Location) (net : Net Ip Cidr)
      (parse_cron : String → Result (Unit {0})) where
    -- The checks of `ValidateCreate` behind those of the namespace and of the selector.
    unfoldable pub validate_matched : ChaosExperiment → List Pod → M W Admission
    validate_matched exp pods =
        let matched = length pods in
        let warnings = warn_if (exceeds exp.spec.count matched) (
          fmt
            "Count (%d) exceeds number of pods matching selector (%d). Experiment will only affect %d pods."
            (int exp.spec.count (num matched (num matched end)))) in
        elim (validate_cross_field_constraints cal net parse_cron exp.name exp.spec) [
          | err e ↦ return (warnings, err e)
          | ok _ ↦ do
            safety ← validate_safety_constraints net c exp pods
            elim safety [
              | err e ↦ return (warnings, err e)
              | ok more ↦ return (warnings ++ more, ok tt)
            ]
        ]

    unfoldable pub validate_create : ChaosExperiment → M W Admission
    unfolding validate_matched
    validate_create exp = do
      exists ← validate_namespace_exists exp.spec.namespace
      elim exists [
        | err e ↦ return ([], err e)
        | ok _ ↦ do
          matched ← validate_selector_effectiveness exp.spec.namespace exp.spec.selector
          elim matched [ err e ↦ return ([], err e) | ok pods ↦ validate_matched exp pods ]
      ]

    unfoldable pub validate_update : ChaosExperiment → ChaosExperiment → M W Admission
    unfolding validate_create
    validate_update old new = validate_create new

    unfoldable pub validate_delete : ChaosExperiment → M W Admission
    validate_delete exp = return ([], ok tt)
