-- ===== src/Controller/Schedule.antt =====
-- internal/controller/chaosexperiment_controller.go: `checkSchedule`. The cron package is a parameter:
-- a parsed schedule is its function `Next`. A delay that would be negative is 0: the work queue adds the
-- item again for a positive delay only.
pub mod Due
use k8s_chaos.Prelude.{
  ℕ, ◌+◌, ◌-◌, String, Bool, true, false, ◌&&◌, ◌||◌, not, Option, none, some, ltb, leb, eqb, ◌==◌,
  if◌then◌else◌,
}
use k8s_chaos.Go.{Result, ok, err, wrapf, end}
use k8s_chaos.Api.{ChaosExperiment}
use k8s_chaos.Client.{M, ◌>>=◌, ◌>>◌, return, Client}

-- `LastScheduledTime`, or else `StartTime`, or else the creation.
unfoldable pub last_scheduled : ChaosExperiment → ℕ
last_scheduled exp = elim exp.status.last_scheduled_time [
  | some t ↦ t
  | none ↦ elim exp.status.start_time [ some t ↦ t | none ↦ exp.creation_timestamp ]
]

-- `schedule.Next(lastScheduledTime.Add(-time.Second))`.
unfoldable pub should_have_fired : (ℕ → ℕ) → ℕ → ℕ
should_have_fired next last = next (last - 1000000000)

-- `!fired.After(now) && fired.After(last)`.
unfoldable pub is_due : (ℕ → ℕ) → ℕ → ℕ → Bool
unfolding should_have_fired
is_due next last now =
    leb (should_have_fired next last) now && ltb last (should_have_fired next last)

abbrev pub same_time : Option ℕ → ℕ → Bool
same_time none t = false
same_time (some s) t = eqb s t

-- `shouldRun` with the delay of the next attempt, and the experiment.
pub record Decision : Type 0 where
  pub should_run : Bool
  pub requeue_after : ℕ
  pub exp : ChaosExperiment

abbrev pub with_last_run : ChaosExperiment → ℕ → ChaosExperiment
with_last_run exp t = record exp { status = record (exp.status) { last_scheduled_time = some t } }

-- The decision to run, once the time of the run is stored.
abbrev pub run_now : ChaosExperiment → Result (Unit {0}) → Result Decision
run_now exp (err e) = err e
run_now exp (ok _) = ok (record { should_run = true; requeue_after = 0; exp = exp })

module _ {W : Type 0} (c : Client W) where
  open c use {now, update_status}

  -- The next run is stored in the status where it has changed; an error of that update is logged.
  unfoldable pub note_next_run : ChaosExperiment → ℕ → M W ChaosExperiment
  note_next_run exp t = if same_time exp.status.next_scheduled_time t then return exp else do
    let exp' = record exp { status = record (exp.status) { next_scheduled_time = some t } }
    update_status exp'
    return exp'

  unfoldable pub run_schedule : (ℕ → ℕ) → ChaosExperiment → M W (Result Decision)
  unfolding last_scheduled is_due note_next_run
  run_schedule next exp = do
    t ← now
    let due = is_due next (last_scheduled exp) t
    exp1 ← note_next_run exp (next t)
    if due
        then (do
          u ← now
          updated ← update_status (with_last_run exp1 u)
          return (run_now (with_last_run exp1 u) updated))
        else (do
          u ← now
          return (ok (record { should_run = false; requeue_after = next t - u; exp = exp1 })))

  unfoldable pub check_schedule :
      (String → Result (ℕ → ℕ)) → ChaosExperiment → M W (Result Decision)
  unfolding run_schedule
  check_schedule parse_cron exp =
      if exp.spec.schedule == ""
      then return (ok (record { should_run = true; requeue_after = 60000000000; exp = exp }))
      else elim (parse_cron exp.spec.schedule) [
        | err e ↦ return (err (wrapf "invalid schedule: %w" end e))
        | ok next ↦ run_schedule next exp
      ]
