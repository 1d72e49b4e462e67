-- ===== src/Controller/Failure/Attempts.antt =====
-- internal/controller/chaosexperiment_controller.go, `handleExperimentFailure`: a row of failed attempts at
-- one experiment, each on what is stored then.
use k8s_chaos.Prelude.{ℕ, ◌≡◌, List, [], ◌∷◌, String}
use k8s_chaos.Go.{Message, Result, ok, err}
use k8s_chaos.Api.{ChaosExperiment}
use k8s_chaos.Client.{Client}
use k8s_chaos.Controller.Errors.{ChaosError}
use k8s_chaos.Controller.Failure.{retry_limit, handle_experiment_failure}

-- Something that happens before an attempt, and the error with which that fails.
abbrev pub Attempt : Type 0 → Type 0
Attempt W = (W → W) × ChaosError

module _ {W : Type 0} (c : Client W) (namespace name : String) where
  open c use {now, event, get_experiment, update_status}

  -- The failure of the experiment that is read, if one is.
  abbrev pub fail_found : ChaosError → Result ChaosExperiment → W → W
  fail_found ce (err e) v = v
  fail_found ce (ok exp) v = (handle_experiment_failure c exp ce v).1

  -- A failed attempt: something happens, then the experiment is read, as a reconciliation does, and its
  -- failure is handled.
  abbrev pub attempt_once : Attempt W → W → W
  attempt_once (happens, ce) w =
      let (found, v) = get_experiment namespace name (happens w) in fail_found ce found v

  abbrev pub attempts : List (Attempt W) → W → W
  attempts [] w = w
  attempts (attempt ∷ more) w = attempts more (attempt_once attempt w)

  -- The experiment is stored: a read answers what is stored, an update stores its argument, and the
  -- clock and the events leave it alone.
  pub record Stored (held : W → ChaosExperiment) : Type 0 where
    pub reads : (w : W) → (get_experiment namespace name w).0 ≡ ok (held w)
    pub reading : (w : W) → held (get_experiment namespace name w).1 ≡ held w
    pub stores : (exp : ChaosExperiment) (w : W) → held (update_status exp w).1 ≡ exp
    pub clock : (w : W) → held (now w).1 ≡ held w
    pub tells :
        (kind reason : String) (m : Message) (w : W) → held (event kind reason m w).1 ≡ held w

  module _ (held : W → ChaosExperiment) (stored : Stored held) where
    -- What comes before an attempt leaves the spec and the number of retries that are stored.
    abbrev pub LeavesRetries : (W → W) → Type 0
    LeavesRetries happens =
        (w : W)
        → ((held (happens w)).spec ≡ (held w).spec)
          × ((held (happens w)).status.retry_count ≡ (held w).status.retry_count)

    abbrev pub HasLimit : ℕ → W → Attempt W → Type 0
    HasLimit limit w (happens, ce) =
        LeavesRetries happens × (retry_limit (held w) ce.error_type ≡ limit)
