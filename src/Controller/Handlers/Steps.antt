-- ===== src/Controller/Handlers/Steps.antt =====
-- internal/controller/chaosexperiment_controller.go: the parts that the handlers share are steps of the
-- machine of phases and retries.
pub mod Injected
pub mod Pods
pub mod Nodes
use k8s_chaos.Prelude.{
  ℕ, suc, inl, inr, ◌+◌, ◌≤◌, ◌<◌, ◌≡◌, refl, String, List, [], ◌∷◌, Option, none, some, true,
  false, Bool, ltb, arith, Bool-cases, ltb→lt, if◌then◌else◌,
}
use k8s_chaos.Go.{Message, GoError, Result, ok, err}
use k8s_chaos.Api.{ChaosExperiment, ChaosExperimentSpec, ChaosExperimentStatus, Pod}
use k8s_chaos.Client.{M, ◌>>=◌, return}
use k8s_chaos.Controller.Errors.{ErrorType, ChaosError}
use k8s_chaos.Controller.Machine.{
  RunStep, stays, standing, After, retry_status-After, failed_status-After, denied_status-After,
  dry_run_status-After, success_status-After,
}
use k8s_chaos.Controller.Outcome.{
  Outcome, Handled, phase_completed, phase_failed, phase_pending, phase_running,
}
use k8s_chaos.Controller.Failure.{
  is_permission_denied_error, effective_max_retries, retry_limit, handle_experiment_failure,
  schedule_retry, give_up, retry_status, failed_status, handle_permission_denied, denied_status,
  permission_text, handle_dry_run, dry_run_status, handle_experiment_success, success_status,
}
use k8s_chaos.Controller.Handlers.Common.{
  Reconciler, nothing_found, eligible_failure, outcome_of, with_run, preview, record_run,
  finish_pods,
}

-- The computation ends with a value that satisfies `Q`.
abbrev pub Ends : {W B : Type 0} → (B → Type 0) → M W B → Type 0
Ends {W} Q m = (w : W) → Q (m w).0

abbrev pub Steps : {W : Type 0} → ChaosExperiment → M W Handled → Type 0
Steps exp m = Ends (λ handled. After exp handled.1) m

module _ {W B : Type 0} (Q : B → Type 0) where
  pub if-Ends :
      (b : Bool) (m n : M W B)
      → (b ≡ true → Ends Q m)
      → (b ≡ false → Ends Q n)
      → Ends Q (if b then m else n)
  if-Ends true m n h k = h refl
  if-Ends false m n h k = k refl

  pub Result-Ends :
      {A : Type 0} (result : Result A) (f : A → M W B) (g : GoError → M W B)
      → ((a : A) → Ends Q (f a))
      → ((e : GoError) → Ends Q (g e))
      → Ends Q (elim result [ ok a ↦ f a | err e ↦ g e ])
  Result-Ends (ok a) f g h k = h a
  Result-Ends (err e) f g h k = k e

  pub Option-Ends :
      {A : Type 0} (option : Option A) (m : M W B) (f : A → M W B)
      → Ends Q m
      → ((a : A) → Ends Q (f a))
      → Ends Q (elim option [ none ↦ m | some a ↦ f a ])
  Option-Ends none m f h k = h
  Option-Ends (some a) m f h k = k a

outcome_of-After :
    (exp : ChaosExperiment) (handled : Result (Unit {0}) × ChaosExperiment)
    → After exp handled.1
    → After exp (outcome_of handled).1
outcome_of-After exp (ok u, exp') a = a
outcome_of-After exp (err e, exp') a = a

module _ {W : Type 0} (r : Reconciler W) (exp : ChaosExperiment) where
  abbrev Q : Handled → Type 0
  Q handled = After exp handled.1

  abbrev R : Result (Unit {0}) × ChaosExperiment → Type 0
  R handled = After exp handled.1

  schedule_retry-Steps :
      (ce : ChaosError) (failed_at : ℕ)
      → exp.status.retry_count < retry_limit exp ce.error_type
      → Steps exp (schedule_retry r.client exp ce failed_at)
  unfolding schedule_retry
  schedule_retry-Steps ce failed_at h w =
      let a = retry_status-After exp ce failed_at (r.client.now w).0 h in
      Result-Ends Q _ _ _ (λ u w'. a) (λ e w'. a) _

  give_up-Steps : (ce : ChaosError) (failed_at : ℕ) → Steps exp (give_up r.client exp ce failed_at)
  unfolding give_up
  give_up-Steps ce failed_at w =
      let a = failed_status-After exp ce failed_at in Result-Ends Q _ _ _ (λ u w'. a) (λ e w'. a) _

  pub handle_experiment_failure-Steps :
      (ce : ChaosError) → Steps exp (handle_experiment_failure r.client exp ce)
  unfolding handle_experiment_failure
  handle_experiment_failure-Steps ce w =
      if-Ends Q _ _ _ (λ b. schedule_retry-Steps ce _ (ltb→lt _ _ b)) (λ b. give_up-Steps ce _) _

  denied-Steps :
      (operation : String) (e : GoError)
      → Ends R (handle_permission_denied r.client exp operation e)
  unfolding handle_permission_denied
  denied-Steps operation e w =
      let a = denied_status-After exp (permission_text operation e) (r.client.now w).0 in
      Result-Ends R _ _ _ (λ u w'. a) (λ e' w'. a) _

  pub denied_outcome-Steps :
      (operation : String) (e : GoError)
      → Steps exp (do
        denied ← handle_permission_denied r.client exp operation e
        return (outcome_of denied))
  denied_outcome-Steps operation e w =
      outcome_of-After exp (handle_permission_denied r.client exp operation e w).0
        (denied-Steps operation e w)

  pub eligible_failure-Steps :
      (operation : String) (e : GoError) → Steps exp (eligible_failure r exp operation e)
  unfolding eligible_failure
  eligible_failure-Steps operation e w = elim (Bool-cases (is_permission_denied_error e)) [
    | inl b ↦ rw (eligible_failure, b) (denied_outcome-Steps operation e w)
    | inr b ↦ rw (eligible_failure, b) (handle_experiment_failure-Steps _ w)
  ]

  pub nothing_found-Steps : (text : String) → Steps exp (nothing_found r exp text)
  unfolding nothing_found
  nothing_found-Steps text w = record { step = stays _; kept = refl }

  dry_run-Steps :
      (pods : List Pod) (action_type : String)
      → Ends R (handle_dry_run r.client exp pods action_type)
  unfolding handle_dry_run
  dry_run-Steps pods action_type w =
      let a = dry_run_status-After exp pods action_type (r.client.now w).0 in
      Result-Ends R _ _ _ (λ u w'. a) (λ e w'. a) _

  pub preview-Steps :
      (pods : List Pod) (action_type : String) → Steps exp (preview r exp pods action_type)
  unfolding preview
  preview-Steps pods action_type w =
      outcome_of-After exp (handle_dry_run r.client exp pods action_type w).0
        (dry_run-Steps pods action_type w)

  success-Steps :
      (exp' : ChaosExperiment)
      → exp'.spec ≡ exp.spec
      → Ends R (handle_experiment_success r.client exp')
  unfolding handle_experiment_success
  success-Steps exp' k w =
      let a = success_status-After exp exp' k in Result-Ends R _ _ _ (λ u w'. a) (λ e w'. a) _

  pub finish_pods-Steps :
      (action what : String) (summary : List String → Message) (verb : String) (started : ℕ)
      (hits : List String)
      → Steps exp (finish_pods r exp action what summary verb started hits)
  unfolding finish_pods
  finish_pods-Steps action what summary verb started [] w = handle_experiment_failure-Steps _ w
  finish_pods-Steps action what summary verb started (x ∷ xs) w =
      let a =
        success-Steps (with_run exp (r.client.now w).0 (summary (x ∷ xs))) refl
          (r.client.now w).1 in
      Result-Ends Q _ _ _ (λ u w'. a) (λ e w'. a) _
