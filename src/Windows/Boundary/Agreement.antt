-- ===== src/Windows/Boundary/Agreement.antt =====
-- api/v1alpha1/validation_helpers.go: the next boundary of a window against what lies within it.
use k8s_chaos.Prelude.{
  zero, suc, Option-cases, ◌+◌, ℕ, ◌≤◌, ◌<◌, ◌≡◌, ◌⊎◌, refl, inl, inr, List, [], ◌∷◌, true, false,
  All, Exists, some, arith, ap, ◌∙◌,
}
use k8s_chaos.Api.{TimeWindow}
use k8s_chaos.Windows.Calendar.{Calendar}
use k8s_chaos.Windows.Within.{
  Clock, location_of, clock_of, allows_weekday, starts_on, ends_on, in_clock,
  is_within_recurring_window,
}
use k8s_chaos.Windows.Boundary.{
  Boundary, boundary_from, next_recurring_boundary, next_absolute_boundary,
  next_boundary_for_window, earlier, earliest_from, next_time_window_boundary,
}

-- There is no boundary, or it lies in the future.
abbrev pub IsFuture : ℕ → Boundary → Type 0
IsFuture now b = (b.0 ≡ 0) ⊎ (now < b.0)

-- `b` is a boundary no later than `c`, if `c` is one.
abbrev pub IsFirst : Boundary → Boundary → Type 0
IsFirst b c = (c.0 ≡ 0) ⊎ ((0 < b.0) × (b.0 ≤ c.0))

module _ {Location : Type 0} (cal : Calendar Location) where
  boundary_from-IsFuture :
      (w : TimeWindow) (loc : Location) (k : Clock) (now rounds day : ℕ)
      → IsFuture now (boundary_from cal w loc k now rounds day)
  unfolding boundary_from
  boundary_from-IsFuture w loc k now zero day = inl refl
  boundary_from-IsFuture w loc k now (suc rounds) day =
      let ih = boundary_from-IsFuture w loc k now rounds (day + 1) in ground (arith, ih)

  next_recurring_boundary-IsFuture :
      (w : TimeWindow) (now : ℕ) → IsFuture now (next_recurring_boundary cal w now)
  unfolding next_recurring_boundary
  next_recurring_boundary-IsFuture w now = elim (Option-cases (location_of cal w)) [
    | inl e ↦ rw (next_recurring_boundary, e) (inl refl)
    | inr (loc, e) ↦ elim (Option-cases (clock_of cal w)) [
      | inl f ↦ rw (next_recurring_boundary, e, f) (inl refl)
      | inr (k, f) ↦ rw (next_recurring_boundary, e, f) (boundary_from-IsFuture w loc k now 8 0)
    ]
  ]

  next_absolute_boundary-IsFuture :
      (w : TimeWindow) (now : ℕ) → IsFuture now (next_absolute_boundary cal w now)
  unfolding next_absolute_boundary
  next_absolute_boundary-IsFuture w now = ground arith

  next_boundary_for_window-IsFuture :
      (w : TimeWindow) (now : ℕ) → IsFuture now (next_boundary_for_window cal w now)
  unfolding next_boundary_for_window
  next_boundary_for_window-IsFuture w now =
      let r = next_recurring_boundary-IsFuture w now in
      let a = next_absolute_boundary-IsFuture w now in ground (arith, r, a)

  earlier-IsFirst :
      (best b : Boundary) → IsFirst (earlier cal best b) best × IsFirst (earlier cal best b) b
  unfolding earlier
  earlier-IsFirst best b = ground arith

  earlier-IsFuture :
      (now : ℕ) (best b : Boundary)
      → IsFuture now best
      → IsFuture now b
      → IsFuture now (earlier cal best b)
  unfolding earlier
  earlier-IsFuture now best b f g = ground arith

  IsFirst-trans : (a b c : Boundary) → IsFirst a b → IsFirst b c → IsFirst a c
  IsFirst-trans a b c h g = ground arith

  -- The comparison gives one of the two, with its flag.
  earlier-either : (best b : Boundary) → (earlier cal best b ≡ best) ⊎ (earlier cal best b ≡ b)
  unfolding earlier
  earlier-either best b = ground arith

  earliest_from_lem :
      (best : Boundary) (ws : List TimeWindow) (now : ℕ)
      → IsFuture now best
      → let b = earliest_from cal best ws now in
        IsFuture now b
        × IsFirst b best
        × All (λ w. IsFirst b (next_boundary_for_window cal w now)) ws
  unfolding earliest_from
  earliest_from_lem best [] now f = (f, ground arith, tt)
  earliest_from_lem best (w ∷ ws) now f =
      let c = next_boundary_for_window cal w now in
      let e = earlier cal best c in
      let g = earlier-IsFuture now best c f (next_boundary_for_window-IsFuture w now) in
      let b = earliest_from cal e ws now in
      let (x, y, z) = earliest_from_lem e ws now g in
      let (m, n) = earlier-IsFirst best c in
      (x, IsFirst-trans b e best y m, (IsFirst-trans b e c y n, z))

  earliest_from-found :
      (best : Boundary) (ws : List TimeWindow) (now : ℕ)
      → let b = earliest_from cal best ws now in
        (b ≡ best) ⊎ Exists (λ w. b ≡ next_boundary_for_window cal w now) ws
  unfolding earliest_from
  earliest_from-found best [] now = inl refl
  earliest_from-found best (w ∷ ws) now =
      let c = next_boundary_for_window cal w now in
      elim (earliest_from-found (earlier cal best c) ws now) [
        | inr later ↦ inr (inr later)
        | inl e ↦ elim (earlier-either best c) [ inl f ↦ inl (e ∙ f) | inr f ↦ inr (inl (e ∙ f)) ]
      ]

  -- The next boundary of a list of windows is, with its flag, the next boundary of a window of the list,
  -- unless it is none; it lies in the future, if there is one, and no boundary of a window of the list
  -- comes before it.
  pub next_time_window_boundary-IsFirst :
      (ws : List TimeWindow) (now : ℕ)
      → let b = next_time_window_boundary cal ws now in
        IsFuture now b
        × All (λ w. IsFirst b (next_boundary_for_window cal w now)) ws
        × ((b.0 ≡ 0) ⊎ Exists (λ w. b ≡ next_boundary_for_window cal w now) ws)
  unfolding next_time_window_boundary
  next_time_window_boundary-IsFirst [] now = (inl refl, tt, inl refl)
  next_time_window_boundary-IsFirst (w ∷ ws) now =
      let (x, y, z) = earliest_from_lem (0, false) (w ∷ ws) now (inl refl) in
      (
        x,
        z,
        elim (earliest_from-found (0, false) (w ∷ ws) now) [
          | inl e ↦ inl (ap (λ b. b.0) e)
          | inr found ↦ inr found
        ],
      )

  first_day :
      (w : TimeWindow) (loc : Location) (k : Clock) (now rounds : ℕ)
      → allows_weekday cal w (cal.weekday loc now 0) ≡ true
      → let start = starts_on cal loc now 0 k in
        let finish = ends_on cal loc now 0 k in
        let b = boundary_from cal w loc k now (suc rounds) 0 in
        (now < start → b ≡ (start, true))
        × (start < finish → start ≤ now → now < finish → b ≡ (finish, false))
  unfolding boundary_from
  first_day w loc k now rounds allowed =
      (λ h. ground (arith, allowed), λ h g i. ground (arith, allowed))

  module _ (w : TimeWindow) (loc : Location) (k : Clock) (now : ℕ)
      (located : location_of cal w ≡ some loc) (clocked : clock_of cal w ≡ some k)
      (allowed : allows_weekday cal w (cal.weekday loc now 0) ≡ true) where
    -- On a day that the window allows, where it ends after it starts on that day, an instant within it
    -- is followed by its end as the next boundary.
    pub next_recurring_boundary-closes :
        starts_on cal loc now 0 k < ends_on cal loc now 0 k
        → is_within_recurring_window cal w now ≡ true
        → next_recurring_boundary cal w now ≡ (ends_on cal loc now 0 k, false)
    unfolding is_within_recurring_window next_recurring_boundary in_clock
    next_recurring_boundary-closes h within =
        let inside : in_clock cal (starts_on cal loc now 0 k) (ends_on cal loc now 0 k) now ≡ true =
          rw (is_within_recurring_window, located, clocked, allowed) at within in
        let f =
          (first_day w loc k now 7 allowed).1 h (ground (arith, inside)) (ground (arith, inside)) in
        rw (next_recurring_boundary, located, clocked) f

    -- On a day that the window allows, where it spans midnight, an instant before its end on that day is
    -- within it, but the next boundary is its start on that day, as an opening.
    pub next_recurring_boundary-wrapped :
        ends_on cal loc now 0 k ≤ starts_on cal loc now 0 k
        → now < ends_on cal loc now 0 k
        → (is_within_recurring_window cal w now ≡ true)
          × (next_recurring_boundary cal w now ≡ (starts_on cal loc now 0 k, true))
    unfolding is_within_recurring_window next_recurring_boundary in_clock
    next_recurring_boundary-wrapped h before =
        let inside : in_clock cal (starts_on cal loc now 0 k) (ends_on cal loc now 0 k) now ≡ true =
          ground arith in
        (
          rw (is_within_recurring_window, located, clocked, allowed) inside,
          rw (next_recurring_boundary, located, clocked)
              ((first_day w loc k now 7 allowed).0 (omega arith)),
        )
