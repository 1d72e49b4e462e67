-- ===== src/Controller/Reconcile/Storing.antt =====
-- internal/controller/chaosexperiment_controller.go: what a whole reconciliation may do, and which
-- statuses it stores.
use k8s_chaos.Prelude.{ℕ, ◌≡◌, refl, ◌∙◌, String, List, true, false, ◌==◌, none, some, All, eq_iff}
use k8s_chaos.Go.{lit, fmt, msg, end, error_text, GoError, Result, ok, err}
use k8s_chaos.Api.{ChaosExperiment, ChaosExperimentHistory, Pod}
use k8s_chaos.Client.{Task}
use k8s_chaos.Windows.Calendar.{Calendar}
use k8s_chaos.Controller.Frame.{Keeps, if-Keeps, Result-Keeps}
use k8s_chaos.Controller.Outcome.{phase_paused, phase_running}
use k8s_chaos.Controller.Gates.{Gate, Passage, check_dependencies, check_time_windows}
use k8s_chaos.Controller.Schedule.{Decision, check_schedule}
use k8s_chaos.Controller.Lifecycle.{check_experiment_lifecycle}
use k8s_chaos.Controller.Machine.{here, next, pauses, resumes, run, Reached, After, same_limit}
use k8s_chaos.Controller.Targets.Eligible.{IsTarget}
use k8s_chaos.Controller.Handlers.Common.{Reconciler, with_message}
use k8s_chaos.Controller.Handlers.Attacks.{Attacks}
use k8s_chaos.Controller.Handlers.NodeAttacks.{NodeAttacks}
use k8s_chaos.Controller.Dispatch.Targeted.{Frame}
use k8s_chaos.Controller.Dispatch.Framed.{dispatch-Keeps}
use k8s_chaos.Controller.Reconcile.{
  fail_with, on_dependencies, after_windows, on_windows, after_schedule, on_schedule,
  after_lifecycle, on_lifecycle, run_experiment, pause, resume, with_phase, reconcile_experiment,
  reconcile,
}
use k8s_chaos.Controller.Reconcile.Idle.{reconcile-found}
use k8s_chaos.Controller.Reconcile.Stages.{
  Live, Stores, Tracked-Live, StaysAt, Decided, Scheduled, check_time_windows-Tracked,
  check_dependencies-Tracked, check_schedule-Tracked, check_time_windows-Keeps,
  check_dependencies-Keeps, check_schedule-Keeps,
}
use k8s_chaos.Controller.Reconcile.Lifespan.{
  LivesOn, check_experiment_lifecycle-LivesOn, check_experiment_lifecycle-Keeps,
}

-- What the calls of a reconciliation of `exp` have to keep: the reads and reports, the updates that store
-- an experiment reached from `exp`, the records, pauses and shuffles, the attacks on those pods that may
-- be attacked, and the work on nodes with the evictions of those pods that a drain does not skip.
pub record Env {W : Type 0} (r : Reconciler W) (P : W → Type 0) (exp : ChaosExperiment)
    : Type 1 where
  pub storing : Stores r.client P exp
  pub records : (d : ChaosExperimentHistory) → Keeps P (r.client.create_history d)
  pub spawns : (t : Task) → Keeps P (r.client.spawn t)
  pub shuffles : (pods : List Pod) → Keeps P (r.client.shuffle pods)
  pub rearranges :
      (Q : Pod → Type 0) (pods : List Pod) (w : W) → All Q pods → All Q (r.client.shuffle pods w).0
  pub sleeps : (d : ℕ) → Keeps P (r.client.sleep d)
  pub reads : (namespace name : String) → Keeps P (r.client.get_pod namespace name)
  pub attacks : (pod : Pod) → IsTarget pod → Attacks r P pod
  pub deletes : (pod : Pod) → IsTarget pod → Keeps P (r.client.delete_pod pod)
  pub nodes : NodeAttacks r.client P

After-Reached : {exp e e' : ChaosExperiment} → Live exp e → After e e' → Reached exp e'
After-Reached {exp} {e} l a = record {
  moves = next l.reached.moves (run l.alive (rw (same_limit e exp l.reached.same) at (a.step)));
  same = a.kept ∙ l.reached.same;
}

module _ {W Location : Type 0} (r : Reconciler W) (cal : Calendar Location)
    (parse_cron : String → Result (ℕ → ℕ)) (P : W → Type 0) (exp : ChaosExperiment)
    (env : Env r P exp) where
  Frame-at : (e : ChaosExperiment) → Live exp e → Frame r P e
  Frame-at e l = record {
    harmless = record {
      quiet = env.storing.quiet;
      update_status = λ e' a. env.storing.stores e' (After-Reached l a);
    };
    records = env.records;
    spawns = env.spawns;
    shuffles = env.shuffles;
    rearranges = env.rearranges;
    sleeps = env.sleeps;
    attacks = env.attacks;
  }

  fail_with-Keeps :
      (e : ChaosExperiment) (format : String) (x : GoError)
      → Reached exp e
      → Keeps P (fail_with r cal parse_cron e format x)
  unfolding fail_with
  fail_with-Keeps e format x d =
      env.storing.stores (with_message e (fmt format (msg (error_text x) end)))
        (record { moves = d.moves; same = d.same })

  on_dependencies-Keeps :
      (e : ChaosExperiment) (checked : Result Gate)
      → Live exp e
      → Decided e checked
      → Keeps P (on_dependencies r cal parse_cron e checked)
  unfolding on_dependencies
  on_dependencies-Keeps e (err x) l t = fail_with-Keeps e _ x l.reached
  on_dependencies-Keeps e (ok (met, e')) l t =
      if-Keeps P met _ _
        (λ b. dispatch-Keeps r P e' (Frame-at e' (Tracked-Live l t)) env.nodes env.deletes)
        (λ b w p. p)

  after_windows-Keeps :
      (e : ChaosExperiment) → Live exp e → Keeps P (after_windows r cal parse_cron e)
  unfolding after_windows
  after_windows-Keeps e l w p =
      on_dependencies-Keeps e (check_dependencies r.client e w).0 l
        (check_dependencies-Tracked r.client e w) _
        (check_dependencies-Keeps r.client P exp env.storing e w p)

  on_windows-Keeps :
      (e : ChaosExperiment) (passage : Passage)
      → Live exp e
      → StaysAt e passage
      → Keeps P (on_windows r cal parse_cron passage)
  unfolding on_windows
  on_windows-Keeps e (some t, e') l k = env.storing.quiet.now
  on_windows-Keeps e (none, e') l k = after_windows-Keeps e' (Tracked-Live l k)

  after_schedule-Keeps :
      (e : ChaosExperiment) → Live exp e → Keeps P (after_schedule r cal parse_cron e)
  unfolding after_schedule
  after_schedule-Keeps e l w p =
      on_windows-Keeps e (check_time_windows r.client cal e w).0 l
        (check_time_windows-Tracked r.client e cal w) _
        (check_time_windows-Keeps r.client P exp env.storing cal e l.reached w p)

  on_schedule-Keeps :
      (e : ChaosExperiment) (checked : Result Decision)
      → Live exp e
      → Scheduled e checked
      → Keeps P (on_schedule r cal parse_cron e checked)
  unfolding on_schedule
  on_schedule-Keeps e (err x) l t = fail_with-Keeps e _ x l.reached
  on_schedule-Keeps e (ok d) l t =
      if-Keeps P d.should_run _ _ (λ b. after_schedule-Keeps d.exp (Tracked-Live l t)) (λ b w p. p)

  after_lifecycle-Keeps :
      (e : ChaosExperiment) → Live exp e → Keeps P (after_lifecycle r cal parse_cron e)
  unfolding after_lifecycle
  after_lifecycle-Keeps e l w p =
      on_schedule-Keeps e (check_schedule r.client parse_cron e w).0 l
        (check_schedule-Tracked r.client e parse_cron w) _
        (check_schedule-Keeps r.client P exp env.storing e parse_cron l.reached w p)

  on_lifecycle-Keeps :
      (checked : Result Gate)
      → LivesOn exp checked
      → Keeps P (on_lifecycle r cal parse_cron checked)
  unfolding on_lifecycle
  on_lifecycle-Keeps (err x) l w p = p
  on_lifecycle-Keeps (ok (true, e)) l w p = after_lifecycle-Keeps e l w p
  on_lifecycle-Keeps (ok (false, e)) l w p = p

  run_experiment-Keeps :
      (e : ChaosExperiment) → Reached exp e → Keeps P (run_experiment r cal parse_cron e)
  unfolding run_experiment
  run_experiment-Keeps e d w p =
      on_lifecycle-Keeps (check_experiment_lifecycle r.client e w).0
        (check_experiment_lifecycle-LivesOn r.client P exp env.storing env.nodes env.reads e d w) _
        (check_experiment_lifecycle-Keeps r.client P exp env.storing env.nodes env.reads e d w p)

  unmoved : Reached exp exp
  unmoved = record { moves = here; same = refl }

  pause-Keeps : Keeps P (pause r cal parse_cron exp)
  unfolding pause
  pause-Keeps w p =
      let u =
        env.storing.stores (with_message (with_phase exp phase_paused) (lit "Experiment is paused"))
          (record { moves = next here pauses; same = refl }) w p in
      Result-Keeps P _ _ _ (λ u w p. p) (λ x w p. p) _ u

  resumed : exp.status.phase ≡ phase_paused → Reached exp (with_phase exp phase_running)
  resumed h = record { moves = next here (resumes h); same = refl }

  resume-Keeps : Keeps P (resume r cal parse_cron exp)
  unfolding resume
  resume-Keeps =
      if-Keeps P (exp.status.phase == phase_paused) _ _
        (λ b w p.
          let d = resumed ((eq_iff exp.status.phase phase_paused).0 b) in
          let u = env.storing.stores (with_phase exp phase_running) d w p in
          Result-Keeps P (r.client.update_status (with_phase exp phase_running) w).0 _ _
            (λ x. run_experiment-Keeps _ d) (λ x v q. q) _ u)
        (λ b. run_experiment-Keeps exp unmoved)

  pub reconcile_experiment-Keeps : Keeps P (reconcile_experiment r cal parse_cron exp)
  unfolding reconcile_experiment
  reconcile_experiment-Keeps =
      if-Keeps P (exp.spec.action == "") _ _
        (λ b.
          env.storing.stores (with_message exp (lit "Error: Action not specified"))
            (record { moves = here; same = refl }))
        (λ b. if-Keeps P exp.spec.paused _ _ (λ b'. pause-Keeps) (λ b'. resume-Keeps))

  -- A reconciliation that finds an experiment keeps whatever its reads, events, metrics, records and
  -- pauses keep, and these calls: the updates that store an experiment with the same spec, whose phase and
  -- number of retries the state machine of phases reaches from those that were found (a run, a start and
  -- an end are moves of an experiment that is not Completed; a pause is one of any experiment); the
  -- attacks on pods without the exclusion label that are not being deleted; the updates of nodes; and the
  -- evictions of pods that are no DaemonSet or static pods, not finished and not being deleted. It stores
  -- no other status and attacks no other pod.
  pub reconcile-Keeps :
      (namespace name : String) (w w' : W)
      → r.client.get_experiment namespace name w ≡ (ok exp, w')
      → P w'
      → P (reconcile r cal parse_cron namespace name w).1
  reconcile-Keeps namespace name w w' g p =
      rw (reconcile-found r cal parse_cron exp namespace name w w' g)
        (reconcile_experiment-Keeps w' p)
