-- ===== src/Controller/Gates.antt =====
-- internal/controller/chaosexperiment_controller.go: `checkDependencies` and `checkTimeWindows`.
pub mod Dependencies
pub mod Passing
use k8s_chaos.Prelude.{
  ℕ, ◌+◌, String, List, [], ◌∷◌, Bool, true, false, not, Option, none, some, eqb, ◌==◌,
  if◌then◌else◌,
}
use k8s_chaos.Go.{Message, lit, fmt, Result, ok, err, wrapf, str, num, end, is_not_found}
use k8s_chaos.Api.{ChaosExperiment, TimeWindow}
use k8s_chaos.Client.{M, ◌>>=◌, ◌>>◌, return, Client}
use k8s_chaos.Windows.Calendar.{Calendar}
use k8s_chaos.Windows.Within.{is_within_time_windows}
use k8s_chaos.Windows.Boundary.{next_time_window_boundary}
use k8s_chaos.Controller.Outcome.{phase_completed}
use k8s_chaos.Controller.Conditions.{set_blocked_condition, clear_blocked_condition}

abbrev pub waiting : ChaosExperiment → Message → ChaosExperiment
waiting exp m = record exp { status = record (exp.status) { message = m } }

-- A decision, and the experiment as the code leaves it.
abbrev pub Gate : Type 0
Gate = Bool × ChaosExperiment

-- Whether the experiment may go on; otherwise the instant of the next attempt.
abbrev pub Passage : Type 0
Passage = Option ℕ × ChaosExperiment

module _ {W : Type 0} (c : Client W) where
  open c use {now, get_experiment}

  -- The loop of `checkDependencies`: it stops at the first dependency that is not completed.
  unfoldable pub check_each_dependency : ChaosExperiment → List String → M W (Result Gate)
  check_each_dependency exp [] = return (ok (true, exp))
  check_each_dependency exp (dep ∷ deps) = do
    let rest = check_each_dependency exp deps
    found ← get_experiment exp.namespace dep
    elim found [
      | err e ↦
          if is_not_found e
          then return (
              ok (
                false,
                waiting exp (fmt "Waiting for dependency: experiment %q not found" (str dep end)),
              ))
          else return (err (wrapf "failed to get dependent experiment %q: %w" (str dep end) e))
      | ok d ↦
          if d.status.phase == phase_completed
          then rest
          else return (
              ok (
                false,
                waiting exp (
                    fmt "Waiting for dependency: experiment %q is in phase %q"
                      (str dep (str d.status.phase end))),
              ))
    ]

  unfoldable pub check_dependencies : ChaosExperiment → M W (Result Gate)
  unfolding check_each_dependency
  check_dependencies exp = check_each_dependency exp exp.spec.depends_on

  module _ {Location : Type 0} (cal : Calendar Location) where
    abbrev pub is_in_maintenance : List TimeWindow → ℕ → Bool
    is_in_maintenance [] t = false
    is_in_maintenance (w ∷ ws) t = is_within_time_windows cal (w ∷ ws) t

    -- `none` lets the experiment pass.
    unfoldable pub check_allowed_windows : ChaosExperiment → ℕ → M W Passage
    check_allowed_windows exp t =
        if is_within_time_windows cal exp.spec.time_windows t
        then (do exp' ← clear_blocked_condition c exp; return (none, exp'))
        else let (boundary, opens) = next_time_window_boundary cal exp.spec.time_windows t in
          if eqb boundary 0
          then (do
            exp' ← set_blocked_condition c exp (lit "No future time windows available")
            return (some (t + 86400000000000), exp'))
          else do
            exp' ← set_blocked_condition c exp (
                fmt "Outside allowed time window. Next window %s at %s"
                  (str (if opens then "opens" else "closes") (num boundary end)))
            return (some boundary, exp')

    unfoldable pub check_time_windows : ChaosExperiment → M W Passage
    unfolding check_allowed_windows
    check_time_windows exp = do
      t ← now
      if is_in_maintenance exp.spec.maintenance_windows t
          then (do
            let ends_at = (next_time_window_boundary cal exp.spec.maintenance_windows t).0
            exp' ←
                set_blocked_condition c exp
                  (fmt "Blocked by maintenance window until %s" (num ends_at end))
            return (some (if eqb ends_at 0 then t + 3600000000000 else ends_at), exp'))
          else check_allowed_windows exp t
