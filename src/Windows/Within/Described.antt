-- ===== src/Windows/Within/Described.antt =====
-- api/v1alpha1/validation_helpers.go, `IsWithinTimeWindows`: the windows and the instants within them,
-- without the order of the tests.
use k8s_chaos.Prelude.{ℕ, ◌≤◌, ◌<◌, ◌≡◌, ◌≢◌, ◌⊎◌, [], some, Exists}
use k8s_chaos.Api.{TimeWindow}
use k8s_chaos.Windows.Calendar.{Weekday, Calendar}
use k8s_chaos.Windows.Validate.{normalize_weekday}
use k8s_chaos.Windows.Within.{Clock, clock_of}

-- The instant is not before the start and before the finish; where the finish is not after the start,
-- the window spans midnight, and one of the two is enough.
abbrev pub Spans : (start finish now : ℕ) → Type 0
Spans start finish now =
    ((start < finish) × (start ≤ now) × (now < finish))
    ⊎ ((finish ≤ start) × ((start ≤ now) ⊎ (now < finish)))

module _ {Location : Type 0} (cal : Calendar Location) where
  open cal use {utc, load_location, parse_rfc3339, weekday, on_day}

  -- The zone of a window is the one it names, and UTC where it names none.
  abbrev pub IsZone : TimeWindow → Location → Type 0
  IsZone w loc =
      ((w.timezone ≡ "") × (loc ≡ utc))
      ⊎ ((w.timezone ≢ "") × (load_location w.timezone ≡ some loc))

  -- The window names no days, or one of its days is the weekday.
  abbrev pub IsOnDay : TimeWindow → Weekday → Type 0
  IsOnDay w d =
      (w.days_of_week ≡ []) ⊎ Exists (λ day. normalize_weekday cal day ≡ some d) w.days_of_week

  -- Within a recurring window: on one of its days, and between its ends on that day, in its zone.
  pub record IsWithinRecurring (w : TimeWindow) (now : ℕ) : Type 0 where
    pub zone : Location
    pub clock : Clock
    pub in_zone : IsZone w zone
    pub on_a_day : IsOnDay w (weekday zone now 0)
    pub at_clock : clock_of cal w ≡ some clock
    pub spans :
        Spans
          (on_day zone now 0 clock.start_hour clock.start_minute)
          (on_day zone now 0 clock.end_hour clock.end_minute)
          now

  -- Within an absolute window: from the instant that its start names to before the one its end names.
  pub record IsWithinAbsolute (w : TimeWindow) (now : ℕ) : Type 0 where
    pub start : ℕ
    pub finish : ℕ
    pub starts : parse_rfc3339 w.start ≡ some start
    pub ends : parse_rfc3339 w.finish ≡ some finish
    pub after_start : start ≤ now
    pub before_end : now < finish

  abbrev pub IsWithin : ℕ → TimeWindow → Type 0
  IsWithin now w =
      ((w.window_type ≡ "Recurring") × IsWithinRecurring w now)
      ⊎ ((w.window_type ≡ "Absolute") × IsWithinAbsolute w now)
