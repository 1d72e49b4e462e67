-- ===== src/Controller/Gates/Passing.antt =====
-- internal/controller/chaosexperiment_controller.go, `checkTimeWindows`: when an experiment passes.
use k8s_chaos.Prelude.{
  ℕ, List, [], ◌∷◌, ◌≡◌, ◌⊎◌, inl, inr, ◌↔◌, true, false, none, refl, Exists, Bool-cases, arith,
}
use k8s_chaos.Api.{TimeWindow, ChaosExperiment}
use k8s_chaos.Client.{Client}
use k8s_chaos.Windows.Calendar.{Calendar}
use k8s_chaos.Windows.Within.{is_within_time_windows}
use k8s_chaos.Windows.Within.Described.{IsWithin}
use k8s_chaos.Windows.Within.Agreement.{windows-Exists, Exists-windows}
use k8s_chaos.Controller.Gates.{is_in_maintenance, check_allowed_windows, check_time_windows}

module _ {W Location : Type 0} (c : Client W) (cal : Calendar Location) where
  -- The instant is within none of the maintenance windows, and within one of the time windows if there
  -- are any.
  abbrev pub MayPass : (maintenance windows : List TimeWindow) → ℕ → Type 0
  MayPass maintenance windows t =
      (¬ Exists (IsWithin cal t) maintenance) × ((windows ≡ []) ⊎ Exists (IsWithin cal t) windows)

  outside-maintenance :
      (ws : List TimeWindow) (t : ℕ)
      → is_in_maintenance c cal ws t ≡ false
      → ¬ Exists (IsWithin cal t) ws
  outside-maintenance [] t h e = e
  outside-maintenance (w ∷ ws) t h e = let q = Exists-windows cal t w ws e in ground (arith, q, h)

  maintenance-outside :
      (ws : List TimeWindow) (t : ℕ)
      → ¬ Exists (IsWithin cal t) ws
      → is_in_maintenance c cal ws t ≡ false
  maintenance-outside [] t n = refl
  maintenance-outside (w ∷ ws) t n = elim (Bool-cases (is_within_time_windows cal (w ∷ ws) t)) [
    | inl h ↦ absurd (n (windows-Exists cal t w ws h))
    | inr h ↦ h
  ]

  allowed_some_window :
      (ws : List TimeWindow) (t : ℕ)
      → is_within_time_windows cal ws t ≡ true
      → (ws ≡ []) ⊎ Exists (IsWithin cal t) ws
  allowed_some_window [] t h = inl refl
  allowed_some_window (w ∷ ws) t h = inr (windows-Exists cal t w ws h)

  some_window_allowed :
      (ws : List TimeWindow) (t : ℕ)
      → (ws ≡ []) ⊎ Exists (IsWithin cal t) ws
      → is_within_time_windows cal ws t ≡ true
  unfolding is_within_time_windows
  some_window_allowed [] t h = refl
  some_window_allowed (w ∷ ws) t (inl e) = ground (arith, e)
  some_window_allowed (w ∷ ws) t (inr e) = Exists-windows cal t w ws e

  passes_iff :
      (exp : ChaosExperiment) (w : W)
      → let t = (c.now w).0 in
        ((check_time_windows c cal exp w).0.0 ≡ none) ↔ (
          (is_in_maintenance c cal exp.spec.maintenance_windows t ≡ false)
          × (is_within_time_windows cal exp.spec.time_windows t ≡ true))
  unfolding check_time_windows check_allowed_windows
  passes_iff exp w = ground arith

  -- The windows let an experiment pass exactly when the instant that the clock shows is within none of
  -- its maintenance windows, and within one of its time windows if it has any. Within a recurring window
  -- is: its zone loads (UTC where it names none), its start and end are clocks, it names no days or the
  -- weekday of that instant in its zone, and the instant is not before the start and before the end of
  -- that day, or one of the two where the end is not after the start. Within an absolute window is: both
  -- ends are instants, and the instant is not before the first and before the second.
  pub check_time_windows_iff :
      (exp : ChaosExperiment) (w : W)
      → ((check_time_windows c cal exp w).0.0 ≡ none)
        ↔ MayPass exp.spec.maintenance_windows exp.spec.time_windows (c.now w).0
  check_time_windows_iff exp w =
      let maintenance = exp.spec.maintenance_windows in
      let windows = exp.spec.time_windows in
      let t = (c.now w).0 in
      (
        λ h.
            let (m, a) = (passes_iff exp w).0 h in
            (outside-maintenance maintenance t m, allowed_some_window windows t a),
        λ (n, a).
            (passes_iff exp w).1
              (maintenance-outside maintenance t n, some_window_allowed windows t a),
      )
