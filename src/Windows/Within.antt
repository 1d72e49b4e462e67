-- ===== src/Windows/Within.antt =====
-- api/v1alpha1/validation_helpers.go: whether an instant falls within time windows.
pub mod Described
pub mod Agreement
use k8s_chaos.Prelude.{
  ℕ, ℤ, String, List, [], ◌∷◌, Bool, true, false, ◌&&◌, ◌||◌, not, Option, none, some, any, ltb,
  leb, ◌==◌, if◌then◌else◌,
}
use k8s_chaos.Api.{TimeWindow, time_window_recurring, time_window_absolute}
use k8s_chaos.Windows.Calendar.{Weekday, weekday_eqb, Calendar, split_clock}
use k8s_chaos.Windows.Validate.{normalize_weekday}

-- The hours and minutes at which a recurring window starts and ends.
pub record Clock : Type 0 where
  pub start_hour : ℤ
  pub start_minute : ℤ
  pub end_hour : ℤ
  pub end_minute : ℤ

module _ {Location : Type 0} (cal : Calendar Location) where
  open cal use {utc, load_location, parse_rfc3339, weekday, on_day, scan_int}

  unfoldable pub location_of : TimeWindow → Option Location
  location_of w = if w.timezone == "" then some utc else load_location w.timezone

  -- `if weekday, ok := normalizeWeekday(day); ok && weekday == ...`.
  unfoldable names_weekday : Weekday → String → Bool
  unfolding normalize_weekday
  names_weekday d name = elim (normalize_weekday cal name) [
    | none ↦ false
    | some e ↦ weekday_eqb e d
  ]

  -- The days of the window are not restricted, or one of them is `d`.
  unfoldable pub allows_weekday : TimeWindow → Weekday → Bool
  unfolding names_weekday
  allows_weekday w d = elim w.days_of_week [
    | [] ↦ true
    | day ∷ days ↦ any (names_weekday d) (day ∷ days)
  ]

  -- `strings.Split` of both ends, and the numbers in the parts.
  unfoldable pub clock_of : TimeWindow → Option Clock
  unfolding split_clock
  clock_of w = elim (split_clock w.start) [
    | none ↦ none
    | some (sh, sm) ↦ elim (split_clock w.finish) [
      | none ↦ none
      | some (eh, em) ↦ some (record {
        start_hour = scan_int sh;
        start_minute = scan_int sm;
        end_hour = scan_int eh;
        end_minute = scan_int em;
      })
    ]
  ]

  abbrev pub starts_on : Location → ℕ → ℕ → Clock → ℕ
  starts_on loc now day k = on_day loc now day k.start_hour k.start_minute

  abbrev pub ends_on : Location → ℕ → ℕ → Clock → ℕ
  ends_on loc now day k = on_day loc now day k.end_hour k.end_minute

  -- The comparison of an instant with the two ends on its day; the window spans midnight where the
  -- end is not after the start.
  unfoldable pub in_clock : ℕ → ℕ → ℕ → Bool
  in_clock start finish now =
      if leb finish start then leb start now || ltb now finish else leb start now && ltb now finish

  unfoldable pub is_within_recurring_window : TimeWindow → ℕ → Bool
  unfolding location_of allows_weekday clock_of in_clock
  is_within_recurring_window w now = elim (location_of w) [
    | none ↦ false
    | some loc ↦ if not (allows_weekday w (weekday loc now 0)) then false else elim (clock_of w) [
      | none ↦ false
      | some k ↦ in_clock (starts_on loc now 0 k) (ends_on loc now 0 k) now
    ]
  ]

  unfoldable pub is_within_absolute_window : TimeWindow → ℕ → Bool
  is_within_absolute_window w now = elim (parse_rfc3339 w.start) [
    | none ↦ false
    | some start ↦ elim (parse_rfc3339 w.finish) [
      | none ↦ false
      | some finish ↦ leb start now && ltb now finish
    ]
  ]

  unfoldable pub is_within_time_window : TimeWindow → ℕ → Bool
  unfolding is_within_recurring_window is_within_absolute_window
  is_within_time_window w now =
      if w.window_type == time_window_recurring
      then is_within_recurring_window w now
      else if w.window_type == time_window_absolute
      then is_within_absolute_window w now
      else false

  unfoldable pub is_within_time_windows : List TimeWindow → ℕ → Bool
  unfolding is_within_time_window
  is_within_time_windows [] now = true
  is_within_time_windows (w ∷ ws) now = any (λ v. is_within_time_window v now) (w ∷ ws)
