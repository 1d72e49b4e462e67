-- ===== src/Windows/Boundary.antt =====
-- api/v1alpha1/validation_helpers.go: when a time window opens or closes next.
pub mod Agreement
use k8s_chaos.Prelude.{
  ℕ, zero, suc, ◌+◌, List, [], ◌∷◌, Bool, true, false, ◌&&◌, ◌||◌, not, none, some, ltb, leb, eqb,
  ◌==◌, if◌then◌else◌,
}
use k8s_chaos.Api.{TimeWindow, time_window_recurring, time_window_absolute}
use k8s_chaos.Windows.Calendar.{Calendar, day_length}
use k8s_chaos.Windows.Within.{Clock, location_of, allows_weekday, clock_of, starts_on, ends_on}

-- The instant, which is 0 if there is none, and whether a window opens then.
abbrev pub Boundary : Type 0
Boundary = ℕ × Bool

module _ {Location : Type 0} (cal : Calendar Location) where
  open cal use {parse_rfc3339, weekday}

  -- The loop over the days, with `rounds` days left to look at.
  unfoldable pub boundary_from : TimeWindow → Location → Clock → ℕ → (rounds day : ℕ) → Boundary
  unfolding allows_weekday
  boundary_from w loc k now zero day = (0, false)
  boundary_from w loc k now (suc rounds) day =
      let later = boundary_from w loc k now rounds (day + 1) in
      let start = starts_on cal loc now day k in
      let same_day = ends_on cal loc now day k in
      let finish = if leb same_day start then same_day + day_length else same_day in
      if not (allows_weekday cal w (weekday loc now day))
      then later
      else if ltb now start
      then (start, true)
      else if ltb now finish
      then (finish, false)
      else later

  unfoldable pub next_recurring_boundary : TimeWindow → ℕ → Boundary
  unfolding location_of clock_of boundary_from
  next_recurring_boundary w now = elim (location_of cal w) [
    | none ↦ (0, false)
    | some loc ↦ elim (clock_of cal w) [
      | none ↦ (0, false)
      | some k ↦ boundary_from w loc k now 8 0
    ]
  ]

  unfoldable pub next_absolute_boundary : TimeWindow → ℕ → Boundary
  next_absolute_boundary w now = elim (parse_rfc3339 w.start) [
    | none ↦ (0, false)
    | some start ↦ elim (parse_rfc3339 w.finish) [
      | none ↦ (0, false)
      | some finish ↦
          if ltb now start
          then (start, true)
          else if ltb now finish
          then (finish, false)
          else (0, false)
    ]
  ]

  unfoldable pub next_boundary_for_window : TimeWindow → ℕ → Boundary
  unfolding next_recurring_boundary next_absolute_boundary
  next_boundary_for_window w now =
      if w.window_type == time_window_recurring
      then next_recurring_boundary w now
      else if w.window_type == time_window_absolute
      then next_absolute_boundary w now
      else (0, false)

  -- `!boundary.IsZero() && (earliest.IsZero() || boundary.Before(earliest))`.
  unfoldable pub earlier : Boundary → Boundary → Boundary
  earlier best b = if not (eqb b.0 0) && (eqb best.0 0 || ltb b.0 best.0) then b else best

  unfoldable pub earliest_from : Boundary → List TimeWindow → ℕ → Boundary
  unfolding next_boundary_for_window earlier
  earliest_from best [] now = best
  earliest_from best (w ∷ ws) now =
      earliest_from (earlier best (next_boundary_for_window w now)) ws now

  unfoldable pub next_time_window_boundary : List TimeWindow → ℕ → Boundary
  unfolding earliest_from
  next_time_window_boundary [] now = (0, true)
  next_time_window_boundary (w ∷ ws) now = earliest_from (0, false) (w ∷ ws) now
