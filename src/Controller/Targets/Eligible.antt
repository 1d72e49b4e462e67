-- ===== src/Controller/Targets/Eligible.antt =====
-- internal/controller/chaosexperiment_controller.go, `getEligiblePods`: which pods it returns.
use k8s_chaos.Prelude.{
  ◌+◌, ◌≡◌, refl, List, [], ◌∷◌, Bool, true, false, ◌&&◌, not, none, select, length, All, arith,
  String, ◌≢◌, eq_iff, All-select,
}
use k8s_chaos.Go.{GoError, Result, ok, err}
use k8s_chaos.Api.{ChaosExperiment, Namespace, Pod, exclusion_label, has_entry}
use k8s_chaos.Client.{Client}
use k8s_chaos.Controller.Targets.{is_some, scan_pods, get_eligible_pods, namespace_is_excluded}

-- A pod may be attacked.
abbrev pub is_eligible : Bool → Pod → Bool
is_eligible namespace_excluded pod =
    not namespace_excluded
    && not (has_entry exclusion_label "true" pod.labels)
    && not (is_some pod.deletion_timestamp)

-- The scan keeps the eligible pods in their order, and counts every other pod under one reason.
pub scan_pods-exact :
    (excluded : Bool) (pods : List Pod)
    → let s = scan_pods excluded pods in
      (s.eligible ≡ select (is_eligible excluded) pods)
      × (length s.eligible + s.by_namespace + s.by_label + s.by_terminating ≡ length pods)
unfolding scan_pods
scan_pods-exact excluded [] = (refl, refl)
scan_pods-exact excluded (pod ∷ pods) = ground (arith, scan_pods-exact excluded pods)

-- What the caller relies on.
abbrev pub IsTarget : Pod → Type 0
IsTarget pod =
    (has_entry exclusion_label "true" pod.labels ≡ false) × (pod.deletion_timestamp ≡ none)

is_eligible-IsTarget :
    (excluded : Bool) (pod : Pod) → is_eligible excluded pod ≡ true → IsTarget pod
is_eligible-IsTarget excluded pod h = ground arith

-- Whether the namespace, as far as it can be read, is annotated as excluded.
abbrev pub is_excluded : Result Namespace → Bool
is_excluded (ok ns) = has_entry exclusion_label "true" ns.annotations
is_excluded (err e) = false

module _ {W : Type 0} (c : Client W) where
  open c use {list_pods, get_namespace}

  namespace_is_excluded-eq :
      (name : String) (w : W)
      → (namespace_is_excluded c name w).0 ≡ is_excluded (get_namespace name w).0
  unfolding namespace_is_excluded
  namespace_is_excluded-eq name w = ground arith

  -- Where the namespace is given and its pods are listed, the result is those of the listed pods, in
  -- their order, that are not excluded by the namespace's annotation or by their own label and are
  -- not being deleted.
  pub get_eligible_pods-exact :
      (exp : ChaosExperiment) (listed : List Pod) (w w' : W)
      → exp.spec.namespace ≢ ""
      → list_pods exp.spec.namespace exp.spec.selector w ≡ (ok listed, w')
      → (get_eligible_pods c exp w).0
        ≡ ok (select (is_eligible (is_excluded (get_namespace exp.spec.namespace w').0)) listed)
  unfolding get_eligible_pods
  get_eligible_pods-exact exp listed w w' n e = ground (
    arith,
    eq_iff exp.spec.namespace "",
    (scan_pods-exact (is_excluded (get_namespace exp.spec.namespace w').0) listed).0,
  )

  returned_eq :
      (exp : ChaosExperiment) (listed pods : List Pod) (w w' : W)
      → list_pods exp.spec.namespace exp.spec.selector w ≡ (ok listed, w')
      → (get_eligible_pods c exp w).0 ≡ ok pods
      → pods ≡ select (is_eligible (is_excluded (get_namespace exp.spec.namespace w').0)) listed
  unfolding get_eligible_pods
  returned_eq exp listed pods w w' l e =
      ground
        (arith, (scan_pods-exact (is_excluded (get_namespace exp.spec.namespace w').0) listed).0)

  not-returned :
      (exp : ChaosExperiment) (f : GoError) (pods : List Pod) (w w' : W)
      → list_pods exp.spec.namespace exp.spec.selector w ≡ (err f, w')
      → (get_eligible_pods c exp w).0 ≢ ok pods
  unfolding get_eligible_pods
  not-returned exp f pods w w' l e = ground arith

  returned-IsTarget :
      (exp : ChaosExperiment) (x : Result (List Pod)) (pods : List Pod) (w w' : W)
      → list_pods exp.spec.namespace exp.spec.selector w ≡ (x, w')
      → (get_eligible_pods c exp w).0 ≡ ok pods
      → All IsTarget pods
  returned-IsTarget exp (err f) pods w w' l e = absurd (not-returned exp f pods w w' l e)
  returned-IsTarget exp (ok listed) pods w w' l e =
      let excluded = is_excluded (get_namespace exp.spec.namespace w').0 in
      rw (returned_eq exp listed pods w w' l e)
        (All-select (is_eligible excluded) IsTarget (is_eligible-IsTarget excluded) listed)

  -- Every pod that is returned lacks the exclusion label and is not being deleted.
  pub get_eligible_pods-IsTarget :
      (exp : ChaosExperiment) (pods : List Pod) (w : W)
      → (get_eligible_pods c exp w).0 ≡ ok pods
      → All IsTarget pods
  get_eligible_pods-IsTarget exp pods w e =
      returned-IsTarget exp (list_pods exp.spec.namespace exp.spec.selector w).0 pods w
        (list_pods exp.spec.namespace exp.spec.selector w).1 refl e
