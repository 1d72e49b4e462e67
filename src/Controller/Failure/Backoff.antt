-- ===== src/Controller/Failure/Backoff.antt =====
-- internal/controller/chaosexperiment_controller.go, `calculateRetryDelay`: the delays of the retries.
use k8s_chaos.Prelude.{ℕ, zero, suc, ◌*◌, ◌^◌, ◌≤◌, ◌<◌, ◌≡◌, min, arith, if◌then◌else◌, ◌⊎◌}
use k8s_chaos.Durations.Parse.{wrap}
use k8s_chaos.Controller.Failure.{exponential_delay, max_retry_delay, is_greater}

wrap_small : (n : ℕ) → n < 2 ^ 63 → wrap n ≡ n
wrap_small n h = omega arith

le-mul : (b p : ℕ) → 1 ≤ b → p ≤ b * p
le-mul b p h = grind arith

capped :
    (d : ℕ)
    → d < 2 ^ 63
    → (if is_greater d max_retry_delay then max_retry_delay else d) ≡ min d max_retry_delay
capped d h = ground arith

-- Without an overflow the exponential delay is the base delay doubled once per retry, cut at ten
-- minutes.
pub exponential_delay-exact :
    (base retries : ℕ)
    → base * 2 ^ retries < 2 ^ 63
    → exponential_delay base retries ≡ min (base * 2 ^ retries) max_retry_delay
unfolding exponential_delay
exponential_delay-exact zero retries h =
    let e : wrap (0 * wrap (2 ^ retries)) ≡ 0 * 2 ^ retries = omega arith in
    rw e (capped (0 * 2 ^ retries) h)
exponential_delay-exact (suc b) retries h =
    let small : 2 ^ retries < 2 ^ 63 = omega (arith, le-mul (suc b) (2 ^ retries) (omega arith)) in
    rw (wrap_small (2 ^ retries) small, wrap_small (suc b * 2 ^ retries) h)
      (capped (suc b * 2 ^ retries) h)

clamp_bounds :
    (d : ℕ)
    → ((if is_greater d max_retry_delay then max_retry_delay else d) ≤ max_retry_delay)
      ⊎ (2 ^ 63 ≤ (if is_greater d max_retry_delay then max_retry_delay else d))
clamp_bounds d = ground arith

-- Whatever the spec and the status, the exponential delay is at most ten minutes, or a pattern whose
-- sign bit is set, which stands for a negative delay.
pub exponential_delay_bounds :
    (base retries : ℕ)
    → (exponential_delay base retries ≤ max_retry_delay) ⊎ (2 ^ 63 ≤ exponential_delay base retries)
unfolding exponential_delay
exponential_delay_bounds base retries = clamp_bounds (wrap (base * wrap (2 ^ retries)))
