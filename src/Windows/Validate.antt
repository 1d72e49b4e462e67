-- ===== src/Windows/Validate.antt =====
-- api/v1alpha1/validation_helpers.go: `validateTimeWindow` and the loops over windows.
use k8s_chaos.Prelude.{
  ℕ, suc, String, List, [], ◌∷◌, Bool, true, false, ◌&&◌, ◌||◌, not, Option, none, some, ltb, ◌==◌,
  if◌then◌else◌,
}
use k8s_chaos.Go.{Result, ok, err, errorf, wrapf, str, num, end, ◌>>=◌, ◌>>◌, refuse_if}
use k8s_chaos.Api.{TimeWindow, time_window_recurring, time_window_absolute}
use k8s_chaos.Durations.Text.{codes, match_clock}
use k8s_chaos.Windows.Calendar.{
  Weekday, sunday, monday, tuesday, wednesday, thursday, friday, saturday, Calendar,
}

abbrev pub is_none {ℓ} : {A : Type ℓ} → Option A → Bool
is_none none = true
is_none (some a) = false

module _ {Location : Type 0} (cal : Calendar Location) where
  open cal use {load_location, parse_rfc3339, to_lower}

  weekday_of_name : String → Option Weekday
  weekday_of_name day =
      if day == "mon"
      then some monday
      else if day == "tue"
      then some tuesday
      else if day == "wed"
      then some wednesday
      else if day == "thu"
      then some thursday
      else if day == "fri"
      then some friday
      else if day == "sat"
      then some saturday
      else if day == "sun"
      then some sunday
      else none

  -- `none` is the result whose second part is false.
  unfoldable pub normalize_weekday : String → Option Weekday
  unfolding weekday_of_name
  normalize_weekday day = weekday_of_name (to_lower day)

  unfoldable pub validate_days : List String → Result (Unit {0})
  unfolding normalize_weekday
  validate_days [] = ok tt
  validate_days (day ∷ days) = do
    refuse_if (is_none (normalize_weekday day)) (errorf "invalid dayOfWeek %q" (str day end))
    validate_days days

  unfoldable pub validate_recurring : TimeWindow → Result (Unit {0})
  unfolding validate_days match_clock
  validate_recurring w = do
    refuse_if (w.start == "" || w.finish == "")
        (errorf "start and end are required for recurring windows" end)
    refuse_if (not (match_clock (codes w.start)))
        (errorf "start must be HH:MM for recurring windows" end)
    refuse_if (not (match_clock (codes w.finish)))
        (errorf "end must be HH:MM for recurring windows" end)
    refuse_if (w.start == w.finish)
        (errorf "start and end cannot be the same for recurring windows" end)
    refuse_if (not (w.timezone == "") && is_none (load_location w.timezone))
        (errorf "invalid timezone %q" (str w.timezone end))
    validate_days w.days_of_week

  abbrev parse_or : String → String → Result ℕ
  parse_or s message = elim (parse_rfc3339 s) [ none ↦ err (errorf message end) | some t ↦ ok t ]

  unfoldable pub validate_absolute : TimeWindow → Result (Unit {0})
  validate_absolute w = do
    refuse_if (w.start == "" || w.finish == "")
        (errorf "start and end are required for absolute windows" end)
    start ← parse_or w.start "start must be RFC3339 for absolute windows"
    finish ← parse_or w.finish "end must be RFC3339 for absolute windows"
    refuse_if (not (ltb start finish)) (errorf "end must be after start for absolute windows" end)
    refuse_if (not (w.timezone == "")) (errorf "timezone is not supported for absolute windows" end)
    elim w.days_of_week [
      | [] ↦ ok tt
      | d ∷ ds ↦ err (errorf "daysOfWeek is not supported for absolute windows" end)
    ]

  unfoldable pub validate_time_window : TimeWindow → Result (Unit {0})
  unfolding validate_recurring validate_absolute
  validate_time_window w =
      if w.window_type == time_window_recurring
      then validate_recurring w
      else if w.window_type == time_window_absolute
      then validate_absolute w
      else err (errorf "type must be Recurring or Absolute" end)

  -- The loop of `ValidateTimeWindows` and of `ValidateMaintenanceWindows`, which differ in the name.
  unfoldable pub validate_windows_from : String → ℕ → List TimeWindow → Result (Unit {0})
  unfolding validate_time_window
  validate_windows_from field i [] = ok tt
  validate_windows_from field i (w ∷ ws) =
      let rest = validate_windows_from field (suc i) ws in
      elim (validate_time_window w) [ err e ↦ err (wrapf field (num i end) e) | ok _ ↦ rest ]

  unfoldable pub validate_time_windows : List TimeWindow → Result (Unit {0})
  unfolding validate_windows_from
  validate_time_windows = validate_windows_from "timeWindows[%d]: %w" 0

  unfoldable pub validate_maintenance_windows : List TimeWindow → Result (Unit {0})
  unfolding validate_windows_from
  validate_maintenance_windows = validate_windows_from "maintenanceWindows[%d]: %w" 0
