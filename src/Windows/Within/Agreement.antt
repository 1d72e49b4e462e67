-- ===== src/Windows/Within/Agreement.antt =====
-- api/v1alpha1/validation_helpers.go, `IsWithinTimeWindows`: the tests of the code agree with the
-- description of the windows.
use k8s_chaos.Prelude.{
  ℕ, ◌≡◌, inl, inr, refl, ◌∙◌, ap, String, List, [], ◌∷◌, true, false, some, any, Exists,
  any-Exists, Exists-any, arith, Bool-cases, Option-cases, eq_iff, ◌==◌,
}
use k8s_chaos.Api.{TimeWindow}
use k8s_chaos.Windows.Calendar.{
  Weekday, sunday, monday, tuesday, wednesday, thursday, friday, saturday, weekday_eqb, Calendar,
}
use k8s_chaos.Windows.Validate.{normalize_weekday}
use k8s_chaos.Windows.Within.{
  location_of, clock_of, names_weekday, allows_weekday, in_clock, is_within_recurring_window,
  is_within_absolute_window, is_within_time_window, is_within_time_windows,
}
use k8s_chaos.Windows.Within.Described.{
  Spans, IsZone, IsOnDay, IsWithinRecurring, IsWithinAbsolute, IsWithin,
}

module _ {Location : Type 0} (cal : Calendar Location) where
  open cal use {utc, load_location, parse_rfc3339, weekday, on_day}

  weekday_eqb_refl : (d : Weekday) → weekday_eqb d d ≡ true
  weekday_eqb_refl sunday = refl
  weekday_eqb_refl monday = refl
  weekday_eqb_refl tuesday = refl
  weekday_eqb_refl wednesday = refl
  weekday_eqb_refl thursday = refl
  weekday_eqb_refl friday = refl
  weekday_eqb_refl saturday = refl

  weekday_eqb_equal : (d e : Weekday) → weekday_eqb d e ≡ true → d ≡ e
  weekday_eqb_equal d e h = ground (arith, h)

  in_clock-Spans :
      (start finish now : ℕ) → in_clock cal start finish now ≡ true → Spans start finish now
  unfolding in_clock
  in_clock-Spans start finish now h = ground (arith, h)

  Spans-in_clock :
      (start finish now : ℕ) → Spans start finish now → in_clock cal start finish now ≡ true
  unfolding in_clock
  Spans-in_clock start finish now h = ground (arith, h)

  location_of-IsZone :
      (w : TimeWindow) (loc : Location) → location_of cal w ≡ some loc → IsZone cal w loc
  unfolding location_of
  location_of-IsZone w loc h = elim (Bool-cases (w.timezone == "")) [
    | inl e ↦ inl ((eq_iff w.timezone "").0 e, ground (arith, e, h))
    | inr n ↦
        inr
          ((λ e. let q = (eq_iff w.timezone "").1 e in ground (arith, n, q)), ground (arith, n, h))
  ]

  IsZone-location_of :
      (w : TimeWindow) (loc : Location) → IsZone cal w loc → location_of cal w ≡ some loc
  unfolding location_of
  IsZone-location_of w loc (inl (e, u)) = let q = (eq_iff w.timezone "").1 e in ground (arith, q, u)
  IsZone-location_of w loc (inr (n, l)) = elim (Bool-cases (w.timezone == "")) [
    | inl e ↦ absurd (n ((eq_iff w.timezone "").0 e))
    | inr e ↦ ground (arith, e, l)
  ]

  names_weekday-named :
      (d : Weekday) (day : String)
      → names_weekday cal d day ≡ true
      → normalize_weekday cal day ≡ some d
  unfolding names_weekday
  names_weekday-named d day h = elim (Option-cases (normalize_weekday cal day)) [
    | inl e ↦ ground (arith, e, h)
    | inr (x, e) ↦ e ∙ ap some (weekday_eqb_equal x d (ground (arith, e, h)))
  ]

  named-names_weekday :
      (d : Weekday) (day : String)
      → normalize_weekday cal day ≡ some d
      → names_weekday cal d day ≡ true
  unfolding names_weekday
  named-names_weekday d day e = let r = weekday_eqb_refl d in ground (arith, e, r)

  any-IsOnDay :
      (w : TimeWindow) (d : Weekday)
      → any (names_weekday cal d) w.days_of_week ≡ true
      → IsOnDay cal w d
  any-IsOnDay w d h = inr (
      any-Exists (names_weekday cal d) (λ day. normalize_weekday cal day ≡ some d)
        (names_weekday-named d) w.days_of_week h)

  allows_weekday-IsOnDay :
      (w : TimeWindow) (d : Weekday) → allows_weekday cal w d ≡ true → IsOnDay cal w d
  unfolding allows_weekday
  allows_weekday-IsOnDay w d h =
      elim w.days_of_week
          as (λ days.
            (allows_weekday cal (record w { days_of_week = days }) d ≡ true)
            → IsOnDay cal (record w { days_of_week = days }) d) [
              | [] ↦ λ _. inl refl
              | day ∷ days ↦ any-IsOnDay (record w { days_of_week = day ∷ days }) d
            ]
        h

  IsOnDay-allows_weekday :
      (w : TimeWindow) (d : Weekday) → IsOnDay cal w d → allows_weekday cal w d ≡ true
  unfolding allows_weekday
  IsOnDay-allows_weekday w d (inl e) = rw (e) refl
  IsOnDay-allows_weekday w d (inr h) =
      elim w.days_of_week
          as (λ days.
            Exists (λ day. normalize_weekday cal day ≡ some d) days
            → allows_weekday cal (record w { days_of_week = days }) d ≡ true) [
              | [] ↦ λ e. elim e [ ]
              | day ∷ days ↦
                  Exists-any (names_weekday cal d) (λ x. normalize_weekday cal x ≡ some d)
                    (named-names_weekday d) (day ∷ days)
            ]
        h

  recurring-IsWithin :
      (w : TimeWindow) (now : ℕ)
      → is_within_recurring_window cal w now ≡ true
      → IsWithinRecurring cal w now
  unfolding is_within_recurring_window
  recurring-IsWithin w now h = elim (Option-cases (location_of cal w)) [
    | inl e ↦ ground (arith, e, h)
    | inr (loc, e) ↦ elim (Option-cases (clock_of cal w)) [
      | inl f ↦ ground (arith, e, f, h)
      | inr (k, f) ↦ record {
        zone = loc;
        clock = k;
        in_zone = location_of-IsZone w loc e;
        on_a_day = allows_weekday-IsOnDay w (weekday loc now 0) (ground (arith, e, f, h));
        at_clock = f;
        spans = in_clock-Spans _ _ now (ground (arith, e, f, h));
      }
    ]
  ]

  IsWithin-recurring :
      (w : TimeWindow) (now : ℕ)
      → IsWithinRecurring cal w now
      → is_within_recurring_window cal w now ≡ true
  unfolding is_within_recurring_window
  IsWithin-recurring w now r =
      let e = IsZone-location_of w r.zone r.in_zone in
      let d = IsOnDay-allows_weekday w (weekday r.zone now 0) r.on_a_day in
      let c = Spans-in_clock _ _ now r.spans in
      let k = r.at_clock in rw (is_within_recurring_window, e, d, k, c) refl

  absolute-IsWithin :
      (w : TimeWindow) (now : ℕ)
      → is_within_absolute_window cal w now ≡ true
      → IsWithinAbsolute cal w now
  unfolding is_within_absolute_window
  absolute-IsWithin w now h = elim (Option-cases (parse_rfc3339 w.start)) [
    | inl e ↦ ground (arith, e, h)
    | inr (s, e) ↦ elim (Option-cases (parse_rfc3339 w.finish)) [
      | inl f ↦ ground (arith, e, f, h)
      | inr (t, f) ↦ record {
        start = s;
        finish = t;
        starts = e;
        ends = f;
        after_start = ground (arith, e, f, h);
        before_end = ground (arith, e, f, h);
      }
    ]
  ]

  IsWithin-absolute :
      (w : TimeWindow) (now : ℕ)
      → IsWithinAbsolute cal w now
      → is_within_absolute_window cal w now ≡ true
  unfolding is_within_absolute_window
  IsWithin-absolute w now r =
      let s = r.starts in
      let t = r.ends in let a = r.after_start in let b = r.before_end in ground (arith, s, t, a, b)

  window-IsWithin :
      (now : ℕ) (w : TimeWindow) → is_within_time_window cal w now ≡ true → IsWithin cal now w
  unfolding is_within_time_window
  window-IsWithin now w h = elim (Bool-cases (w.window_type == "Recurring")) [
    | inl r ↦
        inl
          ((eq_iff w.window_type "Recurring").0 r, recurring-IsWithin w now (ground (arith, r, h)))
    | inr n ↦ elim (Bool-cases (w.window_type == "Absolute")) [
      | inl a ↦
          inr (
            (eq_iff w.window_type "Absolute").0 a,
            absolute-IsWithin w now (ground (arith, n, a, h)),
          )
      | inr m ↦ ground (arith, n, m, h)
    ]
  ]

  IsWithin-window :
      (now : ℕ) (w : TimeWindow) → IsWithin cal now w → is_within_time_window cal w now ≡ true
  unfolding is_within_time_window
  IsWithin-window now w (inl (e, r)) =
      let q = (eq_iff w.window_type "Recurring").1 e in
      let p = IsWithin-recurring w now r in ground (arith, q, p)
  IsWithin-window now w (inr (e, a)) =
      let q : ("Absolute" == "Recurring") ≡ false = refl in
      let p = IsWithin-absolute w now a in rw (e) ground (arith, p)

  pub windows-Exists :
      (now : ℕ) (w : TimeWindow) (ws : List TimeWindow)
      → is_within_time_windows cal (w ∷ ws) now ≡ true
      → Exists (IsWithin cal now) (w ∷ ws)
  unfolding is_within_time_windows
  windows-Exists now w ws =
      any-Exists (λ v. is_within_time_window cal v now) (IsWithin cal now) (window-IsWithin now)
        (w ∷ ws)

  pub Exists-windows :
      (now : ℕ) (w : TimeWindow) (ws : List TimeWindow)
      → Exists (IsWithin cal now) (w ∷ ws)
      → is_within_time_windows cal (w ∷ ws) now ≡ true
  unfolding is_within_time_windows
  Exists-windows now w ws =
      Exists-any (λ v. is_within_time_window cal v now) (IsWithin cal now) (IsWithin-window now)
        (w ∷ ws)
