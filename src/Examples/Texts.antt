-- ===== src/Examples/Texts.antt =====
-- The theorems on durations and time windows at concrete inputs.
use k8s_chaos.Prelude.{
  ◌⊎◌, Exists, ℕ, pos, ◌≡◌, ◌≢◌, ◌↔◌, ◌<◌, ◌^◌, ◌*◌, refl, String, List, [], ◌∷◌, true, false, some,
  All, arith, eq_iff,
}
use k8s_chaos.Go.{ok, IsOk}
use k8s_chaos.Api.{TimeWindow}
use k8s_chaos.Durations.Text.{codes, validate_duration_format}
use k8s_chaos.Durations.Parse.{parse_duration}
use k8s_chaos.Durations.Groups.{Group, IsGroup, render, total}
use k8s_chaos.Durations.Grammar.{validate_duration_format_iff, parse_duration-validated}
use k8s_chaos.Windows.Calendar.{monday}
use k8s_chaos.Windows.Within.{
  Clock, location_of, clock_of, allows_weekday, is_within_recurring_window,
}
use k8s_chaos.Windows.Boundary.{
  next_recurring_boundary, next_time_window_boundary, next_boundary_for_window,
}
use k8s_chaos.Windows.Boundary.Agreement.{
  IsFuture, IsFirst, next_time_window_boundary-IsFirst, next_recurring_boundary-closes,
  next_recurring_boundary-wrapped,
}
use k8s_chaos.Examples.World.{calendar}

abbrev text : String
text = "1h30m"

not_empty : text ≢ ""
not_empty e = absurd (ground (arith, eq_iff "1h30m" "", e))

validate_duration_format_iff_example : (validate_duration_format "1h30m" ≡ ok tt) ↔ (
    (g : Group) × (gs : List Group) × IsGroup g
    × All IsGroup gs
    × (codes "1h30m" ≡ render (g ∷ gs)))
validate_duration_format_iff_example = validate_duration_format_iff "1h30m" not_empty

accepted : validate_duration_format "1h30m" ≡ ok tt
unfolding validate_duration_format
accepted = refl

parse_duration-validated_example :
    (gs : List Group) × All IsGroup gs
    × (codes "1h30m" ≡ render gs)
    × IsOk (parse_duration "1h30m")
    × (total gs < 2 ^ 63 → parse_duration "1h30m" ≡ ok (total gs))
parse_duration-validated_example = parse_duration-validated "1h30m" not_empty accepted

abbrev window : String → String → TimeWindow
window start finish = record {
  window_type = "Recurring";
  start = start;
  finish = finish;
  timezone = "";
  days_of_week = [];
}

abbrev hour : ℕ
hour = 3600000000000

next_time_window_boundary-IsFirst_example :
    let b = next_time_window_boundary calendar (window "02:00" "22:00" ∷ []) (23 * hour) in
    IsFuture (23 * hour) b
    × All
        (λ w. IsFirst b (next_boundary_for_window calendar w (23 * hour)))
        (window "02:00" "22:00" ∷ [])
    × ((b.0 ≡ 0)
        ⊎ Exists
            (λ w. b ≡ next_boundary_for_window calendar w (23 * hour))
            (window "02:00" "22:00" ∷ []))
next_time_window_boundary-IsFirst_example =
    next_time_window_boundary-IsFirst calendar (window "02:00" "22:00" ∷ []) (23 * hour)

abbrev by_day : Clock
by_day = record { start_hour = pos 2; start_minute = pos 0; end_hour = pos 22; end_minute = pos 0 }

abbrev by_night : Clock
by_night = record {
  start_hour = pos 22;
  start_minute = pos 0;
  end_hour = pos 2;
  end_minute = pos 0;
}

located : (start finish : String) → location_of calendar (window start finish) ≡ some tt
unfolding location_of
located start finish = refl

day_clock : clock_of calendar (window "02:00" "22:00") ≡ some by_day
unfolding clock_of
day_clock = refl

night_clock : clock_of calendar (window "22:00" "02:00") ≡ some by_night
unfolding clock_of
night_clock = refl

every_day : (start finish : String) → allows_weekday calendar (window start finish) monday ≡ true
unfolding allows_weekday
every_day start finish = refl

within : is_within_recurring_window calendar (window "02:00" "22:00") (12 * hour) ≡ true
unfolding is_within_recurring_window
within = refl

next_recurring_boundary-closes_example :
    next_recurring_boundary calendar (window "02:00" "22:00") (12 * hour) ≡ (22 * hour, false)
next_recurring_boundary-closes_example =
    next_recurring_boundary-closes calendar (window "02:00" "22:00") tt by_day (12 * hour)
      (located "02:00" "22:00") day_clock (every_day "02:00" "22:00") (omega arith) within

next_recurring_boundary-wrapped_example :
    (is_within_recurring_window calendar (window "22:00" "02:00") (25 * hour) ≡ true)
    × (next_recurring_boundary calendar (window "22:00" "02:00") (25 * hour) ≡ (46 * hour, true))
next_recurring_boundary-wrapped_example =
    next_recurring_boundary-wrapped calendar (window "22:00" "02:00") tt by_night (25 * hour)
      (located "22:00" "02:00") night_clock (every_day "22:00" "02:00") (omega arith) (omega arith)
