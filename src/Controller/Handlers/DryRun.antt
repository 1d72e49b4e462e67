-- ===== src/Controller/Handlers/DryRun.antt =====
-- internal/controller/chaosexperiment_controller.go: what a dry run of a pod handler leaves alone.
use k8s_chaos.Prelude.{ℕ, ◌≡◌, ◌<◌, refl, String, List, [], ◌∷◌, true, arith, ltb→lt}
use k8s_chaos.Go.{GoError, Result, ok, err}
use k8s_chaos.Api.{ChaosExperiment, ChaosExperimentSpec, Pod}
use k8s_chaos.Controller.Frame.{Keeps, Harmless, if-keeps-true, if-Keeps}
use k8s_chaos.Controller.Errors.{ChaosError}
use k8s_chaos.Controller.Machine.{
  stays, retry_status-After, failed_status-After, denied_status-After, dry_run_status-After,
}
use k8s_chaos.Controller.Failure.{
  handle_experiment_failure, schedule_retry, give_up, handle_permission_denied, handle_dry_run,
  retry_limit, permission_text,
}
use k8s_chaos.Controller.Targets.{get_eligible_pods, count_excluded, namespace_is_excluded}
use k8s_chaos.Controller.Handlers.Common.{Reconciler, nothing_found, eligible_failure, preview}
use k8s_chaos.Controller.Handlers.Pods.{handle_pod_kill, handle_pod_failure}
use k8s_chaos.Controller.Handlers.Injection.{on_found, on_eligible_pods}
use k8s_chaos.Controller.Outcome.{Handled}
use k8s_chaos.Client.{M}

module _ {W : Type 0} (r : Reconciler W) (P : W → Type 0) (exp : ChaosExperiment)
    (h : Harmless r.client P exp) where
  pub nothing_found-Keeps : (text : String) → Keeps P (nothing_found r exp text)
  unfolding nothing_found
  nothing_found-Keeps text w p = h.update_status _ (record { step = stays _; kept = refl }) w p

  schedule_retry-Keeps :
      (ce : ChaosError) (failed_at : ℕ)
      → exp.status.retry_count < retry_limit exp ce.error_type
      → Keeps P (schedule_retry r.client exp ce failed_at)
  unfolding schedule_retry
  schedule_retry-Keeps ce failed_at l w p =
      let (t, w1) = r.client.now w in
      let u = h.update_status _ (retry_status-After exp ce failed_at t l) w1 (h.quiet.now w p) in
      grind (arith, u, h.quiet.event)

  give_up-Keeps : (ce : ChaosError) (failed_at : ℕ) → Keeps P (give_up r.client exp ce failed_at)
  unfolding give_up
  give_up-Keeps ce failed_at w p =
      let u = h.update_status _ (failed_status-After exp ce failed_at) w p in
      grind (arith, u, h.quiet.event)

  pub handle_experiment_failure-Keeps :
      (ce : ChaosError) → Keeps P (handle_experiment_failure r.client exp ce)
  unfolding handle_experiment_failure
  handle_experiment_failure-Keeps ce w p =
      if-Keeps P _ _ _ (λ b. schedule_retry-Keeps ce _ (ltb→lt _ _ b)) (λ b. give_up-Keeps ce _) _
        (h.quiet.now w p)

  pub handle_permission_denied-Keeps :
      (operation : String) (e : GoError)
      → Keeps P (handle_permission_denied r.client exp operation e)
  unfolding handle_permission_denied
  handle_permission_denied-Keeps operation e w p =
      let (t, w1) = r.client.now w in
      let a = denied_status-After exp (permission_text operation e) t in
      let u = h.update_status _ a w1 (h.quiet.now w p) in grind (arith, u, h.quiet.event)

  pub eligible_failure-Keeps :
      (operation : String) (e : GoError) → Keeps P (eligible_failure r exp operation e)
  unfolding eligible_failure
  eligible_failure-Keeps operation e =
      search (if-Keeps P, handle_experiment_failure-Keeps, handle_permission_denied-Keeps)

  pub preview-Keeps :
      (pods : List Pod) (action_type : String) → Keeps P (preview r exp pods action_type)
  unfolding preview handle_dry_run
  preview-Keeps pods action_type w p =
      let (t, w1) = r.client.now w in
      let u =
        h.update_status _ (dry_run_status-After exp pods action_type t) w1 (h.quiet.now w p) in
      grind (arith, u, h.quiet.metric)

  count_excluded-keeps :
      (spec : ChaosExperimentSpec) (reason : String) (n : ℕ) (w : W)
      → P w
      → P (count_excluded r.client spec reason n w).1
  unfolding count_excluded
  count_excluded-keeps spec reason n w p =
      let m =
        h.quiet.metric "chaosexperiment_safety_excluded_resources_total"
          (spec.action ∷ spec.namespace ∷ reason ∷ []) n w p in
      ground (arith, p, m)

  namespace_is_excluded-keeps :
      (name : String) (w : W) → P w → P (namespace_is_excluded r.client name w).1
  unfolding namespace_is_excluded
  namespace_is_excluded-keeps name w p = grind (arith, h.quiet.get_namespace)

  pub get_eligible_pods-keeps : (w : W) → P w → P (get_eligible_pods r.client exp w).1
  unfolding get_eligible_pods
  get_eligible_pods-keeps w p =
      grind (arith, h.quiet.list_pods, count_excluded-keeps, namespace_is_excluded-keeps)

  on_found-previews :
      (on_error : GoError → M W Handled) (nothing action_type : String)
      (attack : List Pod → M W Handled) (found : Result (List Pod))
      → exp.spec.dry_run ≡ true
      → ((e : GoError) → Keeps P (on_error e))
      → Keeps P (on_found r exp on_error nothing action_type attack found)
  unfolding on_found
  on_found-previews on_error nothing action_type attack (err e) dry k w p = k e w p
  on_found-previews on_error nothing action_type attack (ok []) dry k w p =
      nothing_found-Keeps nothing w p
  on_found-previews on_error nothing action_type attack (ok (x ∷ xs)) dry k w p =
      if-keeps-true P (preview r exp (x ∷ xs) action_type) _ dry w
        (preview-Keeps (x ∷ xs) action_type w p)

  -- The attack of a dry run is never reached.
  pub on_eligible_pods-previews :
      (on_error : GoError → M W Handled) (nothing action_type : String)
      (attack : List Pod → M W Handled)
      → exp.spec.dry_run ≡ true
      → ((e : GoError) → Keeps P (on_error e))
      → Keeps P (on_eligible_pods r exp on_error nothing action_type attack)
  unfolding on_eligible_pods
  on_eligible_pods-previews on_error nothing action_type attack dry k w p =
      let (found, w1) = get_eligible_pods r.client exp w in
      on_found-previews on_error nothing action_type attack found dry k w1
        (get_eligible_pods-keeps w p)

  -- A dry run of a pod kill or of a pod failure keeps whatever the clock, events, metrics, status updates
  -- and the reads of the namespace and its pods keep: no pod is deleted, and no command is run in one.
  pub dry_run-keeps :
      (w : W)
      → exp.spec.dry_run ≡ true
      → P w
      → P (handle_pod_kill r exp w).1 × P (handle_pod_failure r exp w).1
  unfolding handle_pod_kill handle_pod_failure
  dry_run-keeps w dry p = (
    search (h.quiet.track, h.quiet.now, on_eligible_pods-previews, eligible_failure-Keeps),
    search (h.quiet.track, h.quiet.now, on_eligible_pods-previews, eligible_failure-Keeps),
  )
