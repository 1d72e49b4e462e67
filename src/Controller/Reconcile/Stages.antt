-- ===== src/Controller/Reconcile/Stages.antt =====
-- internal/controller/chaosexperiment_controller.go: what the checks of `Reconcile` that come before the
-- switch on the action store, and where they leave the experiment.
use k8s_chaos.Prelude.{ℕ, ◌≡◌, refl, ap, ◌∙◌, String, List, [], ◌∷◌, true, ◌==◌, arith, any}
use k8s_chaos.Go.{Message, Result, ok, err, is_not_found}
use k8s_chaos.Api.{ChaosExperiment}
use k8s_chaos.Client.{Client}
use k8s_chaos.Windows.Calendar.{Calendar}
use k8s_chaos.Controller.Frame.{Keeps, Quiet, if-Keeps, Result-Keeps}
use k8s_chaos.Controller.Outcome.{phase_completed}
use k8s_chaos.Controller.Machine.{standing, goes_on, Reached}
use k8s_chaos.Controller.Conditions.{is_blocked, set_blocked_condition, clear_blocked_condition}
use k8s_chaos.Controller.Gates.{
  Gate, Passage, check_each_dependency, check_dependencies, check_allowed_windows,
  check_time_windows, waiting,
}
use k8s_chaos.Controller.Schedule.{
  Decision, same_time, with_last_run, run_now, note_next_run, is_due, last_scheduled, run_schedule,
  check_schedule,
}
use k8s_chaos.Controller.Handlers.Steps.{Ends, if-Ends, Result-Ends}
use k8s_chaos.Controller.Handlers.Steps.Injected.{Tracked, untracked-Tracked}

-- An experiment that was reached and is not completed.
pub record Live (exp e : ChaosExperiment) : Type 0 where
  pub reached : Reached exp e
  pub alive : goes_on (standing e.status) ≡ true

pub Tracked-Reached : {exp e e' : ChaosExperiment} → Reached exp e → Tracked e e' → Reached exp e'
Tracked-Reached {exp} r t = record {
  moves = rw t.same_standing r.moves;
  same = t.same_spec ∙ r.same;
}

pub Tracked-Live : {exp e e' : ChaosExperiment} → Live exp e → Tracked e e' → Live exp e'
Tracked-Live l t = record {
  reached = Tracked-Reached l.reached t;
  alive = ap goes_on t.same_standing ∙ l.alive;
}

-- What the checks need of the environment: a stored experiment has been reached from `exp`.
pub record Stores {W : Type 0} (c : Client W) (P : W → Type 0) (exp : ChaosExperiment)
    : Type 0 where
  pub quiet : Quiet c P
  pub stores : (e : ChaosExperiment) → Reached exp e → Keeps P (c.update_status e)
  pub gets : (namespace name : String) → Keeps P (c.get_experiment namespace name)

abbrev pub StaysAt : ChaosExperiment → Passage → Type 0
StaysAt e passage = Tracked e passage.1

-- A check that lets the experiment go on leaves it where it was.
abbrev pub Decided : ChaosExperiment → Result Gate → Type 0
Decided e (err x) = Unit
Decided e (ok (b, e')) = Tracked e e'

abbrev pub Scheduled : ChaosExperiment → Result Decision → Type 0
Scheduled e (err x) = Unit
Scheduled e (ok d) = Tracked e d.exp

module _ {W : Type 0} (c : Client W) (e : ChaosExperiment) where
  set_blocked_condition-Tracked :
      (text : Message) → Ends (Tracked e) (set_blocked_condition c e text)
  unfolding set_blocked_condition
  set_blocked_condition-Tracked text w = record { same_standing = refl; same_spec = refl }

  clear_blocked_condition-Tracked : Ends (Tracked e) (clear_blocked_condition c e)
  unfolding clear_blocked_condition
  clear_blocked_condition-Tracked =
      if-Ends (Tracked e) (any is_blocked e.status.conditions) _ _
        (λ b w. record { same_standing = refl; same_spec = refl }) (λ b w. untracked-Tracked)

  module _ {Location : Type 0} (cal : Calendar Location) where
    check_allowed_windows-Tracked : (t : ℕ) → Ends (StaysAt e) (check_allowed_windows c cal e t)
    unfolding check_allowed_windows
    check_allowed_windows-Tracked t =
        search (if-Ends (StaysAt e), clear_blocked_condition-Tracked, set_blocked_condition-Tracked)

    pub check_time_windows-Tracked : Ends (StaysAt e) (check_time_windows c cal e)
    unfolding check_time_windows
    check_time_windows-Tracked =
        search (if-Ends (StaysAt e), check_allowed_windows-Tracked, set_blocked_condition-Tracked)

  waiting-Tracked : (text : Message) → Tracked e (waiting e text)
  waiting-Tracked text = record { same_standing = refl; same_spec = refl }

  check_each_dependency-Tracked :
      (deps : List String) → Ends (Decided e) (check_each_dependency c e deps)
  unfolding check_each_dependency
  check_each_dependency-Tracked [] w = untracked-Tracked
  check_each_dependency-Tracked (dep ∷ deps) w =
      let ih = check_each_dependency-Tracked deps in
      Result-Ends (Decided e) (c.get_experiment e.namespace dep w).0 _ _
        (λ d.
          if-Ends (Decided e) (d.status.phase == phase_completed) _ _ (λ b. ih)
            (λ b v. waiting-Tracked _))
        (λ x. if-Ends (Decided e) (is_not_found x) _ _ (λ b v. waiting-Tracked _) (λ b v. tt)) _

  pub check_dependencies-Tracked : Ends (Decided e) (check_dependencies c e)
  unfolding check_dependencies
  check_dependencies-Tracked = check_each_dependency-Tracked e.spec.depends_on

  run_now-Scheduled :
      (e' : ChaosExperiment) (t : ℕ) (updated : Result (Unit {0}))
      → Tracked e e'
      → Scheduled e (run_now (with_last_run e' t) updated)
  run_now-Scheduled e' t (ok u) k = record {
    same_standing = k.same_standing;
    same_spec = k.same_spec;
  }
  run_now-Scheduled e' t (err x) k = tt

  note_next_run-Tracked : (t : ℕ) → Ends (Tracked e) (note_next_run c e t)
  unfolding note_next_run
  note_next_run-Tracked t =
      if-Ends (Tracked e) (same_time e.status.next_scheduled_time t) _ _ (λ b w. untracked-Tracked)
        (λ b w. record { same_standing = refl; same_spec = refl })

  run_schedule-Tracked : (cron : ℕ → ℕ) → Ends (Scheduled e) (run_schedule c cron e)
  unfolding run_schedule
  run_schedule-Tracked cron w =
      let (t, w1) = c.now w in
      let k = note_next_run-Tracked (cron t) w1 in
      if-Ends (Scheduled e) (is_due cron (last_scheduled e) t) _ _
        (λ b v. run_now-Scheduled _ _ _ k) (λ b v. k) _

  pub check_schedule-Tracked :
      (parse_cron : String → Result (ℕ → ℕ)) → Ends (Scheduled e) (check_schedule c parse_cron e)
  unfolding check_schedule
  check_schedule-Tracked parse_cron =
      if-Ends (Scheduled e) (e.spec.schedule == "") _ _ (λ b w. untracked-Tracked)
        (λ b.
          Result-Ends (Scheduled e) (parse_cron e.spec.schedule) _ _ run_schedule-Tracked
            (λ x w. tt))

module _ {W : Type 0} (c : Client W) (P : W → Type 0) (exp : ChaosExperiment)
    (s : Stores c P exp) where
  set_blocked_condition-Keeps :
      (e : ChaosExperiment) (text : Message)
      → Reached exp e
      → Keeps P (set_blocked_condition c e text)
  unfolding set_blocked_condition
  set_blocked_condition-Keeps e text r w p =
      s.stores _ (record { moves = r.moves; same = r.same }) _ (s.quiet.now w p)

  clear_blocked_condition-Keeps :
      (e : ChaosExperiment) → Reached exp e → Keeps P (clear_blocked_condition c e)
  unfolding clear_blocked_condition
  clear_blocked_condition-Keeps e r =
      if-Keeps P (any is_blocked e.status.conditions) _ _
        (λ b w p. s.stores _ (record { moves = r.moves; same = r.same }) w p) (λ b w p. p)

  module _ {Location : Type 0} (cal : Calendar Location) where
    check_allowed_windows-Keeps :
        (e : ChaosExperiment) (t : ℕ) → Reached exp e → Keeps P (check_allowed_windows c cal e t)
    unfolding check_allowed_windows
    check_allowed_windows-Keeps e t r =
        search (if-Keeps P, clear_blocked_condition-Keeps, set_blocked_condition-Keeps, r)

    pub check_time_windows-Keeps :
        (e : ChaosExperiment) → Reached exp e → Keeps P (check_time_windows c cal e)
    unfolding check_time_windows
    check_time_windows-Keeps e r =
        search
          (s.quiet.now, if-Keeps P, check_allowed_windows-Keeps, set_blocked_condition-Keeps, r)

  check_each_dependency-Keeps :
      (e : ChaosExperiment) (deps : List String) → Keeps P (check_each_dependency c e deps)
  unfolding check_each_dependency
  check_each_dependency-Keeps e [] w p = p
  check_each_dependency-Keeps e (dep ∷ deps) w p =
      let ih = check_each_dependency-Keeps e deps in grind (arith, s.gets, ih)

  pub check_dependencies-Keeps : (e : ChaosExperiment) → Keeps P (check_dependencies c e)
  unfolding check_dependencies
  check_dependencies-Keeps e = check_each_dependency-Keeps e e.spec.depends_on

  note_next_run-Keeps :
      (e : ChaosExperiment) (t : ℕ) → Reached exp e → Keeps P (note_next_run c e t)
  unfolding note_next_run
  note_next_run-Keeps e t r =
      if-Keeps P (same_time e.status.next_scheduled_time t) _ _ (λ b w p. p)
        (λ b w p. s.stores _ (record { moves = r.moves; same = r.same }) w p)

  run_schedule-Keeps :
      (e : ChaosExperiment) (cron : ℕ → ℕ) → Reached exp e → Keeps P (run_schedule c cron e)
  unfolding run_schedule
  run_schedule-Keeps e cron r w p =
      let (t, w1) = c.now w in
      let e1 = (note_next_run c e (cron t) w1).0 in
      let k = note_next_run-Tracked c e (cron t) w1 in
      if-Keeps P (is_due cron (last_scheduled e) t) _ _
        (λ b v q.
          s.stores _ (record { moves = rw k.same_standing r.moves; same = k.same_spec ∙ r.same }) _
            (s.quiet.now v q))
        (λ b. s.quiet.now) _ (note_next_run-Keeps e (cron t) r w1 (s.quiet.now w p))

  pub check_schedule-Keeps :
      (e : ChaosExperiment) (parse_cron : String → Result (ℕ → ℕ))
      → Reached exp e
      → Keeps P (check_schedule c parse_cron e)
  unfolding check_schedule
  check_schedule-Keeps e parse_cron r =
      if-Keeps P (e.spec.schedule == "") _ _ (λ b w p. p)
        (λ b.
          Result-Keeps P (parse_cron e.spec.schedule) _ _ (λ cron. run_schedule-Keeps e cron r)
            (λ x w p. p))
