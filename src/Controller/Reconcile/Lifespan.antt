-- ===== src/Controller/Reconcile/Lifespan.antt =====
-- internal/controller/chaosexperiment_controller.go, `checkExperimentLifecycle`: what it stores, and where
-- it leaves the experiment.
use k8s_chaos.Prelude.{ℕ, refl, ap, String, List, [], ◌∷◌, true, false, not, ◌==◌, arith, ltb}
use k8s_chaos.Go.{Result, ok, err}
use k8s_chaos.Api.{ChaosExperiment}
use k8s_chaos.Client.{Client}
use k8s_chaos.Durations.Parse.{parse_duration}
use k8s_chaos.Controller.Frame.{Keeps, if-Keeps, Result-Keeps}
use k8s_chaos.Controller.Outcome.{phase_completed}
use k8s_chaos.Controller.Failure.{add_duration}
use k8s_chaos.Controller.Gates.{Gate}
use k8s_chaos.Controller.Machine.{next, starts, ends, Reached}
use k8s_chaos.Controller.Ephemeral.{Summary, clean_ref, clean_refs, cleanup_ephemeral_containers}
use k8s_chaos.Controller.Lifecycle.{
  uses_ephemeral_containers, with_start, with_end, over, uncordon_all, untaint_all,
  restore_cordoned, restore_tainted, release_containers, complete_experiment, start_experiment,
  or_zero, check_duration, check_experiment_lifecycle,
}
use k8s_chaos.Controller.Handlers.NodeAttacks.{NodeAttacks, uncordon_node-Keeps, untaint_node-Keeps}
use k8s_chaos.Controller.Handlers.Steps.{Ends, if-Ends, Result-Ends, Option-Ends}
use k8s_chaos.Controller.Handlers.Steps.Injected.{Tracked, untracked-Tracked, Tracked-trans}
use k8s_chaos.Controller.Reconcile.Stages.{Live, Stores, Tracked-Live}

-- An experiment that is to go on is one that was reached and is not completed.
abbrev pub LivesOn : ChaosExperiment → Result Gate → Type 0
LivesOn exp (err x) = Unit
LivesOn exp (ok (true, e)) = Live exp e
LivesOn exp (ok (false, e)) = Unit

with_start-Live : {exp e : ChaosExperiment} (t : ℕ) → Live exp e → Live exp (with_start e t)
with_start-Live t l = record {
  reached = record { moves = next l.reached.moves (starts l.alive); same = l.reached.same };
  alive = refl;
}

with_end-Reached :
    {exp e : ChaosExperiment} (duration t : ℕ) → Live exp e → Reached exp (with_end e duration t)
with_end-Reached duration t l = record {
  moves = next l.reached.moves (ends l.alive);
  same = l.reached.same;
}

over-LivesOn :
    (exp : ChaosExperiment) (ended : Result (Unit {0}) × ChaosExperiment) → LivesOn exp (over ended)
over-LivesOn exp (ok u, e) = tt
over-LivesOn exp (err x, e) = tt

module _ {W : Type 0} (c : Client W) (e : ChaosExperiment) where
  restore_cordoned-Tracked : Ends (Tracked e) (restore_cordoned c e)
  unfolding restore_cordoned
  restore_cordoned-Tracked =
      if-Ends (Tracked e) (e.spec.action == "node-drain") _ _
        (λ b w. record { same_standing = refl; same_spec = refl }) (λ b w. untracked-Tracked)

  restore_tainted-Tracked : Ends (Tracked e) (restore_tainted c e)
  unfolding restore_tainted
  restore_tainted-Tracked =
      if-Ends (Tracked e) (e.spec.action == "node-taint") _ _
        (λ b w. record { same_standing = refl; same_spec = refl }) (λ b w. untracked-Tracked)

  cleanup-Tracked : (w : W) → Tracked e (cleanup_ephemeral_containers c e w).0
  unfolding cleanup_ephemeral_containers
  cleanup-Tracked w = record { same_standing = ground arith; same_spec = ground arith }

  release_containers-Tracked : Ends (Tracked e) (release_containers c e)
  unfolding release_containers
  release_containers-Tracked =
      if-Ends (Tracked e) (uses_ephemeral_containers e.spec.action) _ _ (λ b. cleanup-Tracked)
        (λ b w. untracked-Tracked)

module _ {W : Type 0} (c : Client W) (P : W → Type 0) (exp : ChaosExperiment) (s : Stores c P exp)
    (a : NodeAttacks c P)
    (reads : (namespace name : String) → Keeps P (c.get_pod namespace name)) where
  uncordon_all-Keeps : (names : List String) → Keeps P (uncordon_all c names)
  unfolding uncordon_all
  uncordon_all-Keeps [] w p = p
  uncordon_all-Keeps (n ∷ ns) w p = uncordon_all-Keeps ns _ (uncordon_node-Keeps c P a n w p)

  untaint_all-Keeps :
      (key effect : String) (names : List String) → Keeps P (untaint_all c key effect names)
  unfolding untaint_all
  untaint_all-Keeps key effect [] w p = p
  untaint_all-Keeps key effect (n ∷ ns) w p =
      untaint_all-Keeps key effect ns _ (untaint_node-Keeps c P a n key effect w p)

  restore_cordoned-Keeps : (e : ChaosExperiment) → Keeps P (restore_cordoned c e)
  unfolding restore_cordoned
  restore_cordoned-Keeps e =
      if-Keeps P (e.spec.action == "node-drain") _ _
        (λ b. uncordon_all-Keeps e.status.cordoned_nodes) (λ b w p. p)

  restore_tainted-Keeps : (e : ChaosExperiment) → Keeps P (restore_tainted c e)
  unfolding restore_tainted
  restore_tainted-Keeps e =
      if-Keeps P (e.spec.action == "node-taint") _ _
        (λ b. untaint_all-Keeps e.spec.taint_key e.spec.taint_effect e.status.tainted_nodes)
        (λ b w p. p)

  clean_ref-Keeps : (ref : String) (n : Summary) → Keeps P (clean_ref c ref n)
  unfolding clean_ref
  clean_ref-Keeps ref n w p = grind (arith, reads)

  clean_refs-Keeps : (refs : List String) (n : Summary) → Keeps P (clean_refs c refs n)
  unfolding clean_refs
  clean_refs-Keeps [] n w p = p
  clean_refs-Keeps (ref ∷ refs) n w p = clean_refs-Keeps refs _ _ (clean_ref-Keeps ref n w p)

  release_containers-Keeps : (e : ChaosExperiment) → Keeps P (release_containers c e)
  unfolding release_containers cleanup_ephemeral_containers
  release_containers-Keeps e w p = grind (arith, clean_refs-Keeps)

  complete_experiment-Keeps :
      (e : ChaosExperiment) (duration : ℕ) → Live exp e → Keeps P (complete_experiment c e duration)
  unfolding complete_experiment
  complete_experiment-Keeps e duration l w p =
      let (e1, w1) = restore_cordoned c e w in
      let (e2, w2) = restore_tainted c e1 w1 in
      let (e3, w3) = release_containers c e2 w2 in
      let t2 = Tracked-trans (restore_cordoned-Tracked c e w) (restore_tainted-Tracked c e1 w1) in
      let t3 = Tracked-trans t2 (release_containers-Tracked c e2 w2) in
      let p3 =
        release_containers-Keeps e2 w2
          (restore_tainted-Keeps e1 w1 (restore_cordoned-Keeps e w p)) in
      s.stores _ (with_end-Reached duration (c.now w3).0 (Tracked-Live l t3)) _ (s.quiet.now w3 p3)

  start_experiment-Live :
      (e : ChaosExperiment)
      → Live exp e
      → Ends (λ started. Live exp started.1) (start_experiment c e)
  unfolding start_experiment
  start_experiment-Live e l =
      Option-Ends (λ (x : Result (Unit {0}) × ChaosExperiment). Live exp x.1) e.status.start_time _
        _
        (λ w.
          Result-Ends (λ (x : Result (Unit {0}) × ChaosExperiment). Live exp x.1) _ _ _
            (λ u v. with_start-Live _ l) (λ x v. with_start-Live _ l) _)
        (λ t w. l)

  start_experiment-Keeps : (e : ChaosExperiment) → Live exp e → Keeps P (start_experiment c e)
  unfolding start_experiment
  start_experiment-Keeps e l w p =
      let (t, w1) = c.now w in
      let u = s.stores _ ((with_start-Live t l).reached) w1 (s.quiet.now w p) in
      grind (arith, u, s.quiet.event)

  check_duration-LivesOn :
      (e : ChaosExperiment) → Live exp e → Ends (LivesOn exp) (check_duration c e)
  unfolding check_duration
  check_duration-LivesOn e l =
      if-Ends (LivesOn exp) (e.spec.experiment_duration == "") _ _ (λ b w. l)
        (λ b.
          Result-Ends (LivesOn exp) (parse_duration e.spec.experiment_duration) _ _
            (λ duration w.
              if-Ends (LivesOn exp)
                (ltb (add_duration (or_zero c e.status.start_time) duration) (c.now w).0) _ _
                (λ b' v. over-LivesOn exp (complete_experiment c e duration v).0) (λ b' v. l) _)
            (λ x w. tt))

  check_duration-Keeps : (e : ChaosExperiment) → Live exp e → Keeps P (check_duration c e)
  unfolding check_duration
  check_duration-Keeps e l =
      if-Keeps P (e.spec.experiment_duration == "") _ _ (λ b w p. p)
        (λ b.
          Result-Keeps P (parse_duration e.spec.experiment_duration) _ _
            (λ duration w p.
              if-Keeps P (ltb (add_duration (or_zero c e.status.start_time) duration) (c.now w).0) _
                _ (λ b'. complete_experiment-Keeps e duration l) (λ b' v q. q) _ (s.quiet.now w p))
            (λ x w p. p))

  pub check_experiment_lifecycle-LivesOn :
      (e : ChaosExperiment) → Reached exp e → Ends (LivesOn exp) (check_experiment_lifecycle c e)
  unfolding check_experiment_lifecycle
  check_experiment_lifecycle-LivesOn e r =
      if-Ends (LivesOn exp) (e.status.phase == phase_completed) _ _ (λ b w. tt)
        (λ b w.
          let l : Live exp e = record { reached = r; alive = ap not b } in
          Result-Ends (LivesOn exp) (start_experiment c e w).0.0 _ _
            (λ u. check_duration-LivesOn _ (start_experiment-Live e l w)) (λ x v. tt) _)

  pub check_experiment_lifecycle-Keeps :
      (e : ChaosExperiment) → Reached exp e → Keeps P (check_experiment_lifecycle c e)
  unfolding check_experiment_lifecycle
  check_experiment_lifecycle-Keeps e r =
      if-Keeps P (e.status.phase == phase_completed) _ _ (λ b w p. p)
        (λ b w p.
          let l : Live exp e = record { reached = r; alive = ap not b } in
          Result-Keeps P (start_experiment c e w).0.0 _ _
            (λ u. check_duration-Keeps _ (start_experiment-Live e l w)) (λ x v q. q) _
            (start_experiment-Keeps e l w p))
