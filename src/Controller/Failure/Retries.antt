-- ===== src/Controller/Failure/Retries.antt =====
-- internal/controller/chaosexperiment_controller.go, `handleExperimentFailure`: what one failure leaves of
-- the phase and the number of retries.
use k8s_chaos.Prelude.{
  ℕ, suc, ◌+◌, ◌≤◌, ◌<◌, ◌≡◌, refl, min, arith, ltb, lt→ltb, le→ltb-false, ltb→lt, ltb-false→le,
  inl, inr, Bool-cases, String, if◌then◌else◌,
}
use k8s_chaos.Api.{ChaosExperiment}
use k8s_chaos.Client.{Client}
use k8s_chaos.Controller.Errors.{ErrorType, ChaosError}
use k8s_chaos.Controller.Outcome.{phase_pending, phase_failed}
use k8s_chaos.Controller.Failure.{
  effective_max_retries, retry_limit, handle_experiment_failure, schedule_retry, give_up,
  retry_status, failed_status,
}

module _ {W : Type 0} (c : Client W) where
  open c use {now}

  schedule_retry-exp :
      (exp : ChaosExperiment) (ce : ChaosError) (t : ℕ) (w : W)
      → (schedule_retry c exp ce t w).0.1 ≡ record exp { status = retry_status exp ce t (now w).0 }
  unfolding schedule_retry
  schedule_retry-exp exp ce t w = ground arith

  give_up-exp :
      (exp : ChaosExperiment) (ce : ChaosError) (t : ℕ) (w : W)
      → (give_up c exp ce t w).0.1 ≡ record exp { status = failed_status exp ce t }
  unfolding give_up
  give_up-exp exp ce t w = ground arith

  -- One failure leaves a pending experiment with one retry more, or a failed one.
  failure_pending :
      (exp : ChaosExperiment) (ce : ChaosError) (w : W)
      → exp.status.retry_count < retry_limit exp ce.error_type
      → let (t, w1) = now w in
        (handle_experiment_failure c exp ce w).0.1
        ≡ record exp { status = retry_status exp ce t (now w1).0 }
  unfolding handle_experiment_failure
  failure_pending exp ce w h =
      let (t, w1) = now w in rw (lt→ltb _ _ h) (schedule_retry-exp exp ce t w1)

  failure_final :
      (exp : ChaosExperiment) (ce : ChaosError) (w : W)
      → retry_limit exp ce.error_type ≤ exp.status.retry_count
      → (handle_experiment_failure c exp ce w).0.1
        ≡ record exp { status = failed_status exp ce (now w).0 }
  unfolding handle_experiment_failure
  failure_final exp ce w h =
      let (t, w1) = now w in rw (le→ltb-false _ _ h) (give_up-exp exp ce t w1)

-- The phase that `n` failures leave, from a count `k` under a limit.
abbrev pub phase_after : (limit k n : ℕ) → String
phase_after limit k n = if ltb limit (k + n) then phase_failed else phase_pending

pub phase_after-step :
    (limit k k' n : ℕ)
    → k ≤ limit
    → k' ≡ min (k + 1) limit
    → phase_after limit k' (suc n) ≡ phase_after limit k (suc (suc n))
phase_after-step limit k k' n h e = ground arith

pub retry_limit-spec :
    (exp exp' : ChaosExperiment) (t : ErrorType)
    → exp'.spec ≡ exp.spec
    → retry_limit exp' t ≡ retry_limit exp t
unfolding retry_limit effective_max_retries
retry_limit-spec exp exp' t e = rw e

-- What one failure leaves.
pub record Left (limit : ℕ) (exp exp' : ChaosExperiment) : Type 0 where
  pub same_spec : exp'.spec ≡ exp.spec
  pub count : exp'.status.retry_count ≡ min (exp.status.retry_count + 1) limit
  pub phase : exp'.status.phase ≡ phase_after limit exp.status.retry_count 1

retry_Left :
    (limit : ℕ) (exp : ChaosExperiment) (ce : ChaosError) (t u : ℕ)
    → exp.status.retry_count < limit
    → Left limit exp (record exp { status = retry_status exp ce t u })
unfolding retry_status
retry_Left limit exp ce t u h = record {
  same_spec = refl;
  count = omega arith;
  phase = ground arith;
}

failed_Left :
    (limit : ℕ) (exp : ChaosExperiment) (ce : ChaosError) (t : ℕ)
    → exp.status.retry_count ≡ limit
    → Left limit exp (record exp { status = failed_status exp ce t })
unfolding failed_status
failed_Left limit exp ce t h = record {
  same_spec = refl;
  count = omega arith;
  phase = ground arith;
}

module _ {W : Type 0} (c : Client W) where
  open c use {now}

  pub failure_Left :
      (limit : ℕ) (exp : ChaosExperiment) (ce : ChaosError) (w : W)
      → retry_limit exp ce.error_type ≡ limit
      → exp.status.retry_count ≤ limit
      → Left limit exp (handle_experiment_failure c exp ce w).0.1
  failure_Left limit exp ce w e h =
      elim (Bool-cases (ltb exp.status.retry_count (retry_limit exp ce.error_type))) [
        | inl more ↦
            let lt = ltb→lt _ _ more in
            rw (failure_pending c exp ce w lt)
              (retry_Left limit exp ce (now w).0 (now (now w).1).0 (omega arith))
        | inr last ↦
            let le = ltb-false→le _ _ last in
            rw (failure_final c exp ce w le) (failed_Left limit exp ce (now w).0 (omega arith))
      ]
