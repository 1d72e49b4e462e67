-- ===== src/Webhook/Create/Safe.antt =====
-- api/v1alpha1/chaosexperiment_webhook.go: what the admission of an experiment guarantees.
use k8s_chaos.Prelude.{
  ◌≡◌, ◌⊎◌, ◌≢◌, inl, inr, String, List, [], ◌∷◌, true, false, Bool-cases, arith,
}
use k8s_chaos.Go.{Message, GoError, Result, ok, err, Result-cases}
use k8s_chaos.Api.{ChaosExperiment, Pod, Namespace}
use k8s_chaos.Client.{Client}
use k8s_chaos.Windows.Calendar.{Calendar}
use k8s_chaos.Webhook.Network.{Net}
use k8s_chaos.Webhook.Actions.{validate_cross_field_constraints}
use k8s_chaos.Webhook.Safety.{
  is_production, filter_excluded_pods, validate_safety_constraints, validate_production_namespace,
}
use k8s_chaos.Webhook.Create.{
  validate_namespace_exists, validate_selector_effectiveness, validate_matched, validate_create,
}

-- What lets an experiment into its namespace: it allows production, or the namespace that was read is not
-- one for production, or the read failed.
abbrev pub IsLetIn : ChaosExperiment → Result Namespace → Type 0
IsLetIn exp answer =
    (exp.spec.allow_production ≡ true)
    ⊎ ((ns : Namespace) × (answer ≡ ok ns) × (is_production ns exp.spec.namespace ≡ false))
    ⊎ ((e : GoError) × (answer ≡ err e))

module _ {W : Type 0} (c : Client W) {Location Ip Cidr : Type 0} (cal : Calendar Location)
    (net : Net Ip Cidr) (parse_cron : String → Result (Unit {0})) where
  abbrev namespace_read : ChaosExperiment → W → Result Namespace × W
  namespace_read exp w = c.get_namespace exp.spec.namespace w

  abbrev pods_read : ChaosExperiment → W → Result (List Pod) × W
  pods_read exp w = c.list_pods exp.spec.namespace exp.spec.selector (namespace_read exp w).1

  validate_production_namespace-safe :
      (exp : ChaosExperiment) (w : W)
      → (validate_production_namespace c exp w).0 ≡ ok tt
      → IsLetIn exp (c.get_namespace exp.spec.namespace w).0
  unfolding validate_production_namespace
  validate_production_namespace-safe exp w h = elim (Bool-cases exp.spec.allow_production) [
    | inl a ↦ inl a
    | inr a ↦ elim (Result-cases (c.get_namespace exp.spec.namespace w).0) [
      | inr (e, f) ↦ inr (inr (e, f))
      | inl (ns, f) ↦ inr (inl (ns, f, ground (arith, a, f, h)))
    ]
  ]

  validate_safety_constraints-safe :
      (exp : ChaosExperiment) (pods : List Pod) (ms : List Message) (w : W)
      → pods ≢ []
      → (validate_safety_constraints net c exp pods w).0 ≡ ok ms
      → ((validate_production_namespace c exp w).0 ≡ ok tt) × (filter_excluded_pods pods ≢ [])
  unfolding validate_safety_constraints
  validate_safety_constraints-safe exp pods ms w n h = ground arith

  validate_matched-safe :
      (exp : ChaosExperiment) (pods : List Pod) (w : W)
      → pods ≢ []
      → (validate_matched c cal net parse_cron exp pods w).0.1 ≡ ok tt
      → (validate_cross_field_constraints cal net parse_cron exp.name exp.spec ≡ ok tt)
        × ((validate_production_namespace c exp w).0 ≡ ok tt)
        × (filter_excluded_pods pods ≢ [])
  unfolding validate_matched
  validate_matched-safe exp pods w n h =
      elim (Result-cases (validate_safety_constraints net c exp pods w).0) [
        | inl (ms, e) ↦
            let s = validate_safety_constraints-safe exp pods ms w n e in
            (ground (arith, e, h), s.0, s.1)
        | inr (_, e) ↦ absurd (ground (arith, e, h))
      ]

  -- An experiment that the webhook admits has a spec that passes the checks across fields and, as the
  -- reads of the webhook show them, a namespace that exists and a pod that its selector matches and that
  -- is not excluded; and it allows production, or the second read of its namespace shows one that is not
  -- for production, or that read fails, in which case a namespace for production is let through.
  pub validate_create-safe :
      (exp : ChaosExperiment) (w : W)
      → (validate_create c cal net parse_cron exp w).0.1 ≡ ok tt
      → let listed = pods_read exp w in
        ((ns : Namespace) × ((namespace_read exp w).0 ≡ ok ns))
        × ((pods : List Pod) × (listed.0 ≡ ok pods) × (filter_excluded_pods pods ≢ []))
        × (validate_cross_field_constraints cal net parse_cron exp.name exp.spec ≡ ok tt)
        × IsLetIn exp (c.get_namespace exp.spec.namespace listed.1).0
  unfolding validate_create validate_namespace_exists validate_selector_effectiveness
  validate_create-safe exp w h = elim (Result-cases (namespace_read exp w).0) [
    | inl (ns, e) ↦ elim (Result-cases (pods_read exp w).0) [
      | inl ([], f) ↦ absurd (ground (arith, e, f, h))
      | inl (p ∷ ps, f) ↦
          let m =
            validate_matched-safe exp (p ∷ ps) (pods_read exp w).1 (λ q. absurd (ground (arith, q)))
              (ground (arith, e, f, h)) in
          (
            (ns, e),
            (p ∷ ps, f, m.2),
            m.0,
            validate_production_namespace-safe exp (pods_read exp w).1 m.1,
          )
      | inr (_, f) ↦ absurd (ground (arith, e, f, h))
    ]
    | inr (_, e) ↦ absurd (ground (arith, e, h))
  ]
