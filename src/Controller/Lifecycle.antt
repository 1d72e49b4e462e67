-- ===== src/Controller/Lifecycle.antt =====
-- internal/controller/chaosexperiment_controller.go: `checkExperimentLifecycle`.
pub mod Undone
use k8s_chaos.Prelude.{
  ℕ, String, List, [], ◌∷◌, Bool, true, false, ◌||◌, Option, none, some, ltb, ◌==◌, if◌then◌else◌,
}
use k8s_chaos.Go.{fmt, Result, ok, err, str, int, num, end}
use k8s_chaos.Api.{ChaosExperiment}
use k8s_chaos.Client.{M, ◌>>=◌, ◌>>◌, return, Client}
use k8s_chaos.Durations.Parse.{parse_duration}
use k8s_chaos.Controller.Outcome.{phase_running, phase_completed}
use k8s_chaos.Controller.Failure.{add_duration}
use k8s_chaos.Controller.Gates.{Gate}
use k8s_chaos.Controller.Nodes.{uncordon_node, untaint_node}
use k8s_chaos.Controller.Ephemeral.{cleanup_ephemeral_containers}

abbrev pub uses_ephemeral_containers : String → Bool
uses_ephemeral_containers action =
    action == "pod-cpu-stress"
    || action == "pod-memory-stress"
    || action == "pod-network-loss"
    || action == "pod-disk-fill"

abbrev pub with_start : ChaosExperiment → ℕ → ChaosExperiment
with_start exp t = record exp {
  status = record (exp.status) { start_time = some t; phase = phase_running };
}

abbrev pub with_end : ChaosExperiment → ℕ → ℕ → ChaosExperiment
with_end exp duration t = record exp {
  status = record (exp.status) {
    completed_at = some t;
    phase = phase_completed;
    message = fmt "Experiment completed after running for %s" (num duration end);
  };
}

-- The experiment does not go on, once its end is stored.
abbrev pub over : Result (Unit {0}) × ChaosExperiment → Result Gate
over (err e, exp) = err e
over (ok _, exp) = ok (false, exp)

module _ {W : Type 0} (c : Client W) where
  open c use {now, event, update_status}

  -- The loops over the nodes: an error is logged, and the loop goes on.
  unfoldable pub uncordon_all : List String → M W (Unit {0})
  uncordon_all [] = return tt
  uncordon_all (n ∷ ns) = do uncordon_node c n; uncordon_all ns

  unfoldable pub untaint_all : String → String → List String → M W (Unit {0})
  untaint_all key effect [] = return tt
  untaint_all key effect (n ∷ ns) = do untaint_node c n key effect; untaint_all key effect ns

  unfoldable pub restore_cordoned : ChaosExperiment → M W ChaosExperiment
  unfolding uncordon_all
  restore_cordoned exp =
      if exp.spec.action == "node-drain"
      then (do
        uncordon_all exp.status.cordoned_nodes
        return (record exp { status = record (exp.status) { cordoned_nodes = [] } }))
      else return exp

  unfoldable pub restore_tainted : ChaosExperiment → M W ChaosExperiment
  unfolding untaint_all
  restore_tainted exp =
      if exp.spec.action == "node-taint"
      then (do
        untaint_all exp.spec.taint_key exp.spec.taint_effect exp.status.tainted_nodes
        return (record exp { status = record (exp.status) { tainted_nodes = [] } }))
      else return exp

  unfoldable pub release_containers : ChaosExperiment → M W ChaosExperiment
  release_containers exp =
      if uses_ephemeral_containers exp.spec.action
      then cleanup_ephemeral_containers c exp
      else return exp

  -- The experiment has run for its duration: what it did is undone, and it is completed.
  unfoldable pub complete_experiment :
      ChaosExperiment → ℕ → M W (Result (Unit {0}) × ChaosExperiment)
  unfolding restore_cordoned restore_tainted release_containers
  complete_experiment exp duration = do
    exp1 ← restore_cordoned exp
    exp2 ← restore_tainted exp1
    exp3 ← release_containers exp2
    t ← now
    let exp4 = with_end exp3 duration t
    updated ← update_status exp4
    return (updated, exp4)

  -- `StartTime` is set on the first run.
  unfoldable pub start_experiment : ChaosExperiment → M W (Result (Unit {0}) × ChaosExperiment)
  start_experiment exp = elim exp.status.start_time [
    | some _ ↦ return (ok tt, exp)
    | none ↦ do
      t ← now
      let exp' = with_start exp t
      updated ← update_status exp'
      elim updated [
        | err e ↦ return (err e, exp')
        | ok _ ↦ do
          event "Normal" "ExperimentStarted" (
              fmt "Chaos experiment started: action=%s, namespace=%s, count=%d"
                (str exp.spec.action (str exp.spec.namespace (int exp.spec.count end))))
          return (ok tt, exp')
      ]
  ]

  abbrev pub or_zero : Option ℕ → ℕ
  or_zero none = 0
  or_zero (some t) = t

  -- The end of the experiment, for one that has started.
  unfoldable pub check_duration : ChaosExperiment → M W (Result Gate)
  unfolding complete_experiment
  check_duration exp =
      if exp.spec.experiment_duration == ""
      then return (ok (true, exp))
      else elim (parse_duration exp.spec.experiment_duration) [
        | err e ↦ return (err e)
        | ok duration ↦ do
          t ← now
          if ltb (add_duration (or_zero exp.status.start_time) duration) t
              then (do ended ← complete_experiment exp duration; return (over ended))
              else return (ok (true, exp))
      ]

  -- Whether the experiment goes on.
  unfoldable pub check_experiment_lifecycle : ChaosExperiment → M W (Result Gate)
  unfolding start_experiment check_duration
  check_experiment_lifecycle exp =
      if exp.status.phase == phase_completed then return (ok (false, exp)) else do
        (started, exp1) ← start_experiment exp
        elim started [ err e ↦ return (err e) | ok _ ↦ check_duration exp1 ]
