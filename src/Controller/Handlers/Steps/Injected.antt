-- ===== src/Controller/Handlers/Steps/Injected.antt =====
-- internal/controller/chaosexperiment_controller.go: the steps of the handlers that work on pods.
use k8s_chaos.Prelude.{ℕ, ◌≡◌, refl, ◌∙◌, sym, String, List, [], ◌∷◌, Option, arith}
use k8s_chaos.Go.{Message, GoError, Result, ok, err}
use k8s_chaos.Api.{ChaosExperiment, ChaosExperimentStatus, Pod}
use k8s_chaos.Client.{M, ◌>>=◌}
use k8s_chaos.Controller.Errors.{ChaosError}
use k8s_chaos.Controller.Outcome.{Handled}
use k8s_chaos.Controller.Targets.{get_eligible_pods}
use k8s_chaos.Controller.Ephemeral.{track_affected_pod}
use k8s_chaos.Controller.Handlers.Common.{Reconciler, with_message}
use k8s_chaos.Controller.Handlers.Requirements.{Checked, refused, accepted}
use k8s_chaos.Controller.Handlers.Conclusion.{
  Report, Retries, left_alone, reset_on_success, reset_and_running, concluded_status, conclude,
}
use k8s_chaos.Controller.Handlers.Injection.{
  require, on_found, on_eligible_pods, inject_each, inject_pods,
}
use k8s_chaos.Controller.Machine.{RunStep, stays, resets, runs, standing, After}
use k8s_chaos.Controller.Handlers.Steps.{
  Steps, if-Ends, Result-Ends, Option-Ends, handle_experiment_failure-Steps, nothing_found-Steps,
  preview-Steps,
}

-- Where the loop over the pods leads: it changes the list of affected pods only.
pub record Tracked (exp exp' : ChaosExperiment) : Type 0 where
  pub same_standing : standing exp'.status ≡ standing exp.status
  pub same_spec : exp'.spec ≡ exp.spec

track_affected_pod-Tracked :
    (exp : ChaosExperiment) (namespace pod container : String)
    → Tracked exp (track_affected_pod exp namespace pod container)
unfolding track_affected_pod
track_affected_pod-Tracked exp namespace pod container = record {
  same_standing = ground arith;
  same_spec = ground arith;
}

pub Tracked-trans : {a b c : ChaosExperiment} → Tracked a b → Tracked b c → Tracked a c
Tracked-trans s t = record {
  same_standing = t.same_standing ∙ s.same_standing;
  same_spec = t.same_spec ∙ s.same_spec;
}

pub untracked-Tracked : {exp : ChaosExperiment} → Tracked exp exp
untracked-Tracked = record { same_standing = refl; same_spec = refl }

-- An error that is returned as it is.
pub unchanged-After : (exp : ChaosExperiment) → After exp exp
unchanged-After exp = record { step = stays _; kept = refl }

pub with_message-After :
    (exp : ChaosExperiment) (text : Message) → After exp (with_message exp text)
with_message-After exp text = record { step = stays _; kept = refl }

concluded_status-step :
    (limit : ℕ) (report : Report) (t : ℕ) (hits : List String) (s : ChaosExperimentStatus)
    → RunStep limit (standing s) (standing (concluded_status report t hits s))
unfolding concluded_status
concluded_status-step limit report t hits s = settled report.retries hits
  where
    settled :
        (k : Retries) (names : List String)
        → RunStep limit
            (standing s)
            (standing (concluded_status (record report { retries = k }) t names s))
    settled left_alone names = stays _
    settled reset_on_success [] = stays _
    settled reset_on_success (x ∷ xs) = resets _
    settled reset_and_running names = runs _

-- The experiment that `conclude` stores.
pub concluded_status-After :
    (exp exp' : ChaosExperiment) (report : Report) (t : ℕ) (hits : List String)
    → Tracked exp exp'
    → After exp (record exp' { status = concluded_status report t hits exp'.status })
concluded_status-After exp exp' report t hits tracked = record {
  step = rw (sym tracked.same_standing) (concluded_status-step _ report t hits exp'.status);
  kept = tracked.same_spec;
}

module _ {W : Type 0} (r : Reconciler W) where
  pub inject_each-Tracked :
      (attack : Pod → M W (Option String)) (pods : List Pod) (exp : ChaosExperiment) (w : W)
      → Tracked exp (inject_each r attack pods exp w).0.0
  unfolding inject_each
  inject_each-Tracked attack [] exp w = record { same_standing = refl; same_spec = refl }
  inject_each-Tracked attack (pod ∷ pods) exp w =
      Option-Ends (λ (x : ChaosExperiment × List String). Tracked exp x.0) (attack pod w).0 _ _
        (λ w'. inject_each-Tracked attack pods exp w')
        (λ name w'.
          Tracked-trans (track_affected_pod-Tracked exp pod.namespace pod.name name)
            (inject_each-Tracked attack pods _ w'))
        _

  module _ (exp : ChaosExperiment) where
    pub conclude-Steps :
        (exp' : ChaosExperiment) (report : Report) (started : ℕ) (hits : List String)
        → Tracked exp exp'
        → Steps exp (conclude r exp' report started hits)
    unfolding conclude
    conclude-Steps exp' report started hits t w =
        let a = concluded_status-After exp exp' report (r.client.now w).0 hits t in
        Result-Ends (λ (h : Handled). After exp h.1) _ _ _ (λ u w'. a) (λ e w'. a) _

    pub injected-Steps :
        (attack : Pod → M W (Option String)) (report : Report) (started : ℕ) (eligible : List Pod)
        → Steps exp (do
          (exp', hits) ← inject_pods r exp attack eligible
          conclude r exp' report started hits)
    unfolding inject_pods
    injected-Steps attack report started eligible w =
        conclude-Steps _ report started _ (inject_each-Tracked attack _ exp _) _

    pub require-Steps :
        {A : Type 0} (checked : Checked ChaosError A) (next : A → M W Handled)
        → ((a : A) → Steps exp (next a))
        → Steps exp (require r exp checked next)
    unfolding require
    require-Steps (refused ce) next h = handle_experiment_failure-Steps r exp ce
    require-Steps (accepted a) next h = h a

    on_found-Steps :
        (on_error : GoError → M W Handled) (nothing action_type : String)
        (attack : List Pod → M W Handled) (found : Result (List Pod))
        → ((e : GoError) → Steps exp (on_error e))
        → ((pods : List Pod) → Steps exp (attack pods))
        → Steps exp (on_found r exp on_error nothing action_type attack found)
    unfolding on_found
    on_found-Steps on_error nothing action_type attack (err e) h k = h e
    on_found-Steps on_error nothing action_type attack (ok []) h k =
        nothing_found-Steps r exp nothing
    on_found-Steps on_error nothing action_type attack (ok (p ∷ ps)) h k =
        if-Ends (λ (handled : Handled). After exp handled.1) exp.spec.dry_run _ _
          (λ _. preview-Steps r exp (p ∷ ps) action_type) (λ _. k (p ∷ ps))

    pub on_eligible_pods-Steps :
        (on_error : GoError → M W Handled) (nothing action_type : String)
        (attack : List Pod → M W Handled)
        → ((e : GoError) → Steps exp (on_error e))
        → ((pods : List Pod) → Steps exp (attack pods))
        → Steps exp (on_eligible_pods r exp on_error nothing action_type attack)
    unfolding on_eligible_pods
    on_eligible_pods-Steps on_error nothing action_type attack h k w =
        let (found, w1) = get_eligible_pods r.client exp w in
        on_found-Steps on_error nothing action_type attack found h k w1
