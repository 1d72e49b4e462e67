-- ===== src/Controller/Reconcile/Idle.antt =====
-- internal/controller/chaosexperiment_controller.go: experiments that a reconciliation leaves alone.
use k8s_chaos.Prelude.{Bool, if◌then◌else◌, ℕ, ◌≡◌, refl, ap, ◌∙◌, String, true, false, ◌==◌, arith}
use k8s_chaos.Go.{lit, Result, ok}
use k8s_chaos.Api.{ChaosExperiment}
use k8s_chaos.Client.{M}
use k8s_chaos.Windows.Calendar.{Calendar}
use k8s_chaos.Controller.Frame.{Keeps, if-keeps, if-keeps-true}
use k8s_chaos.Controller.Outcome.{Outcome, done, phase_paused}
use k8s_chaos.Controller.Failure.{handle_experiment_success, success_status}
use k8s_chaos.Controller.Lifecycle.{check_experiment_lifecycle}
use k8s_chaos.Controller.Handlers.Common.{Reconciler, with_message}
use k8s_chaos.Controller.Reconcile.{reconcile, reconcile_experiment, run_experiment, pause, resume}

last_of :
    {A : Type 0} (a p q : Bool) (x y u z : A)
    → a ≡ false
    → p ≡ false
    → q ≡ false
    → (if a then x else if p then y else if q then u else z) ≡ z
last_of a p q x y u z f g h = rw (f, g, h) refl

module _ {W Location : Type 0} (r : Reconciler W) (cal : Calendar Location)
    (parse_cron : String → Result (ℕ → ℕ)) where
  open r.client use {get_experiment, update_status}

  pub reconcile-found :
      (exp : ChaosExperiment) (namespace name : String) (w w' : W)
      → get_experiment namespace name w ≡ (ok exp, w')
      → reconcile r cal parse_cron namespace name w ≡ reconcile_experiment r cal parse_cron exp w'
  unfolding reconcile
  reconcile-found exp namespace name w w' g = rw (reconcile, g) refl

  pause-keeps :
      (P : W → Type 0) (exp : ChaosExperiment) (w : W)
      → ((e : ChaosExperiment) → Keeps P (update_status e))
      → P w
      → P (pause r cal parse_cron exp w).1
  unfolding pause
  pause-keeps P exp w keeps p = grind (arith, keeps)

  completed_runs_nothing :
      (exp : ChaosExperiment) (w : W)
      → exp.status.phase ≡ "Completed"
      → run_experiment r cal parse_cron exp w ≡ (done, w)
  unfolding run_experiment check_experiment_lifecycle
  completed_runs_nothing exp w h = rw h refl

  reconcile-completed :
      (exp : ChaosExperiment) (w : W)
      → (exp.spec.action == "") ≡ false
      → exp.spec.paused ≡ false
      → exp.status.phase ≡ "Completed"
      → reconcile_experiment r cal parse_cron exp w ≡ (done, w)
  unfolding reconcile_experiment resume
  reconcile-completed exp w a p h =
      let np : (exp.status.phase == phase_paused) ≡ false = rw h refl in
      let last : reconcile_experiment r cal parse_cron exp ≡ run_experiment r cal parse_cron exp =
        last_of {A = M W Outcome} (exp.spec.action == "") exp.spec.paused
          (exp.status.phase == phase_paused) _ _ _ _ a p np in
      ap (λ (m : M W Outcome). m w) last ∙ completed_runs_nothing exp w h

  handle_experiment_success_exp :
      (exp exp' : ChaosExperiment) (u : Result (Unit {0})) (w w' : W)
      → handle_experiment_success r.client exp w ≡ ((u, exp'), w')
      → exp' ≡ record exp { status = success_status exp.status }
  unfolding handle_experiment_success
  handle_experiment_success_exp exp exp' u w w' h = ground (arith, h)

  -- An experiment that has an action and is not paused, once a run of it has succeeded and is stored as
  -- that run leaves it, is read and left alone by every later reconciliation, whatever its schedule.
  pub reconcile-handle_experiment_success :
      (exp exp' : ChaosExperiment) (namespace name : String) (u : Result (Unit {0})) (w w' v v' : W)
      → (exp.spec.action == "") ≡ false
      → exp.spec.paused ≡ false
      → handle_experiment_success r.client exp w ≡ ((u, exp'), w')
      → get_experiment namespace name v ≡ (ok exp', v')
      → reconcile r cal parse_cron namespace name v ≡ (done, v')
  unfolding success_status
  reconcile-handle_experiment_success exp exp' namespace name u w w' v v' a p h g =
      let e = handle_experiment_success_exp exp exp' u w w' h in
      let idle =
        reconcile-completed exp' v' (ap (λ x. x.spec.action == "") e ∙ a)
          (ap (λ x. x.spec.paused) e ∙ p) (ap (λ x. x.status.phase) e) in
      reconcile-found exp' namespace name v v' g ∙ idle

  -- A reconciliation of an experiment that is paused keeps whatever reading it and updating its status
  -- keep, so that nothing is attacked.
  pub reconcile-paused :
      (P : W → Type 0) (exp : ChaosExperiment) (namespace name : String) (w w' : W)
      → ((e : ChaosExperiment) → Keeps P (update_status e))
      → get_experiment namespace name w ≡ (ok exp, w')
      → exp.spec.paused ≡ true
      → P w'
      → P (reconcile r cal parse_cron namespace name w).1
  unfolding reconcile_experiment
  reconcile-paused P exp namespace name w w' keeps g paused p =
      rw (reconcile-found exp namespace name w w' g) (
        if-keeps P (exp.spec.action == "") _ _ w'
          (keeps (with_message exp (lit "Error: Action not specified")) w' p)
          (if-keeps-true P _ _ paused w' (pause-keeps P exp w' keeps p)))
