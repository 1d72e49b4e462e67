-- ===== src/Controller/Schedule/Due.antt =====
-- internal/controller/chaosexperiment_controller.go, `checkSchedule`: when a scheduled run is due. Times
-- are in nanoseconds.
use k8s_chaos.Prelude.{ℕ, ◌-◌, ◌%◌, ◌≤◌, ◌<◌, ◌≡◌, ◌↔◌, true, false, arith}
use k8s_chaos.Controller.Schedule.{is_due, should_have_fired}

-- What the cron package documents of `Next`: it is the first time of the schedule after its argument.
pub record IsCron (Fires : ℕ → Type 0) (next : ℕ → ℕ) : Type 0 where
  pub after : (t : ℕ) → t < next t
  pub fires : (t : ℕ) → Fires (next t)
  pub first : (t s : ℕ) → t < s → Fires s → next t ≤ s

-- A time of the schedule between the last run and now.
abbrev pub MissedRun : (ℕ → Type 0) → ℕ → ℕ → Type 0
MissedRun Fires last now = (s : ℕ) × (last < s) × (s ≤ now) × Fires s

module _ (Fires : ℕ → Type 0) (next : ℕ → ℕ) (cron : IsCron Fires next) where
  -- Where the schedule has no time in the second that ends with the last run, a run is due exactly when
  -- a time of the schedule has come since the last run.
  pub is_due_iff :
      (last now : ℕ)
      → ((s : ℕ) → last - 1000000000 < s → Fires s → last < s)
      → (is_due next last now ≡ true) ↔ MissedRun Fires last now
  unfolding is_due should_have_fired
  is_due_iff last now h =
      let t = next (last - 1000000000) in
      let fires = cron.fires (last - 1000000000) in
      let after = h t (cron.after (last - 1000000000)) fires in
      (
        λ due. (t, after, ground (arith, due), fires),
        λ (s, lt, le, f).
            let first = cron.first (last - 1000000000) s (omega arith) f in ground arith,
      )

  -- Where the last run, a second or more after time zero, is itself a time of a schedule of whole
  -- seconds, no later run is ever due.
  pub is_due-stuck :
      (last now : ℕ)
      → ((s : ℕ) → Fires s → s % 1000000000 ≡ 0)
      → 1000000000 ≤ last
      → Fires last
      → is_due next last now ≡ false
  unfolding is_due should_have_fired
  is_due-stuck last now whole big f =
      let t = next (last - 1000000000) in
      let after = cron.after (last - 1000000000) in
      let first = cron.first (last - 1000000000) last (omega arith) f in
      let m = whole t (cron.fires (last - 1000000000)) in
      let n = whole last f in let same : t ≡ last = omega arith in rw same (ground arith)
