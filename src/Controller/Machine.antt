-- ===== src/Controller/Machine.antt =====
-- internal/controller/chaosexperiment_controller.go: the phases and retries of an experiment as a state
-- machine, and the statuses that a run stores as its steps.
use k8s_chaos.Prelude.{
  ap, ◌∙◌, eqb, if◌then◌else◌, Bool, true, not, ◌==◌, ℕ, ◌+◌, ◌≤◌, ◌<◌, ◌≡◌, refl, String, List,
  arith,
}
use k8s_chaos.Go.{Message}
use k8s_chaos.Api.{ChaosExperiment, ChaosExperimentSpec, ChaosExperimentStatus, Pod}
use k8s_chaos.Controller.Errors.{ErrorType, ChaosError}
use k8s_chaos.Controller.Outcome.{
  phase_completed, phase_failed, phase_paused, phase_pending, phase_running,
}
use k8s_chaos.Controller.Failure.{
  default_max_retries, effective_max_retries, retry_limit, retry_status, failed_status,
  denied_status, dry_run_status, success_status,
}

-- Where an experiment stands: its phase, and the retries that it has used.
pub record Standing : Type 0 where
  pub phase : String
  pub retries : ℕ

abbrev pub standing : ChaosExperimentStatus → Standing
standing s = record { phase = s.phase; retries = s.retry_count }

-- The steps of a run, with the number of retries that are allowed.
pub data RunStep (limit : ℕ) : Standing → Standing → Type 0 where
  stays : (s : Standing) → RunStep limit s s
  previews : (s : Standing) → RunStep limit s (record s { phase = phase_completed })
  completes : (s : Standing) → RunStep limit s (record { phase = phase_completed; retries = 0 })
  resets : (s : Standing) → RunStep limit s (record s { retries = 0 })
  runs : (s : Standing) → RunStep limit s (record { phase = phase_running; retries = 0 })
  retries :
      (s : Standing)
      → s.retries < limit
      → RunStep limit s (record { phase = phase_pending; retries = s.retries + 1 })
  fails : (s : Standing) → RunStep limit s (record s { phase = phase_failed })

-- The second experiment is the first one a step later, with the same spec.
pub record After (exp exp' : ChaosExperiment) : Type 0 where
  pub step : RunStep (effective_max_retries exp) (standing exp.status) (standing exp'.status)
  pub kept : exp'.spec ≡ exp.spec

retry_limit-le :
    (exp : ChaosExperiment) (t : ErrorType) → retry_limit exp t ≤ effective_max_retries exp
unfolding retry_limit effective_max_retries
retry_limit-le exp t = ground arith

pub retry_status-After :
    (exp : ChaosExperiment) (ce : ChaosError) (failed_at retried_at : ℕ)
    → exp.status.retry_count < retry_limit exp ce.error_type
    → After exp (record exp { status = retry_status exp ce failed_at retried_at })
unfolding retry_status
retry_status-After exp ce failed_at retried_at h = record {
  step = retries _ (omega (arith, h, retry_limit-le exp ce.error_type));
  kept = refl;
}

pub failed_status-After :
    (exp : ChaosExperiment) (ce : ChaosError) (failed_at : ℕ)
    → After exp (record exp { status = failed_status exp ce failed_at })
unfolding failed_status
failed_status-After exp ce failed_at = record { step = fails _; kept = refl }

pub denied_status-After :
    (exp : ChaosExperiment) (text : Message) (t : ℕ)
    → After exp (record exp { status = denied_status exp.status text t })
unfolding denied_status
denied_status-After exp text t = record { step = fails _; kept = refl }

pub dry_run_status-After :
    (exp : ChaosExperiment) (pods : List Pod) (action_type : String) (t : ℕ)
    → After exp (record exp { status = dry_run_status exp pods action_type t })
unfolding dry_run_status
dry_run_status-After exp pods action_type t = record { step = previews _; kept = refl }

pub success_status-After :
    (exp exp' : ChaosExperiment)
    → exp'.spec ≡ exp.spec
    → After exp (record exp' { status = success_status exp'.status })
unfolding success_status
success_status-After exp exp' k = record { step = completes _; kept = k }

abbrev pub goes_on : Standing → Bool
goes_on s = not (s.phase == phase_completed)

-- The moves over all reconciliations. A run, a start and an end are those of an experiment that is not
-- completed.
pub data Move (limit : ℕ) (s : Standing) : Standing → Type 0 where
  pauses : Move limit s (record s { phase = phase_paused })
  resumes : s.phase ≡ phase_paused → Move limit s (record s { phase = phase_running })
  starts : goes_on s ≡ true → Move limit s (record s { phase = phase_running })
  ends : goes_on s ≡ true → Move limit s (record s { phase = phase_completed })
  run : {t : Standing} → goes_on s ≡ true → RunStep limit s t → Move limit s t

pub data Moves (limit : ℕ) (s : Standing) : Standing → Type 0 where
  here : Moves limit s s
  next : {t u : Standing} → Moves limit s t → Move limit t u → Moves limit s u

-- The second experiment is the first one after some moves, with the same spec.
pub record Reached (exp e : ChaosExperiment) : Type 0 where
  pub moves : Moves (effective_max_retries exp) (standing exp.status) (standing e.status)
  pub same : e.spec ≡ exp.spec

Moves-trans : {limit : ℕ} {s t u : Standing} → Moves limit s t → Moves limit t u → Moves limit s u
Moves-trans m here = m
Moves-trans m (next n move) = next (Moves-trans m n) move

pub same_limit :
    (e exp : ChaosExperiment)
    → e.spec ≡ exp.spec
    → effective_max_retries e ≡ effective_max_retries exp
unfolding effective_max_retries
same_limit e exp h =
    ap
      (λ (s : ChaosExperimentSpec).
        if eqb s.max_retries 0 then default_max_retries else s.max_retries)
      h

pub Reached-trans : {a b c : ChaosExperiment} → Reached a b → Reached b c → Reached a c
Reached-trans {a} {b} r s = record {
  moves = Moves-trans r.moves (rw (same_limit b a r.same) at (s.moves));
  same = s.same ∙ r.same;
}

pub RunStep-bounded :
    (limit : ℕ) (s t : Standing) → RunStep limit s t → s.retries ≤ limit → t.retries ≤ limit
RunStep-bounded limit s t (stays _) h = h
RunStep-bounded limit s t (previews _) h = h
RunStep-bounded limit s t (completes _) h = omega arith
RunStep-bounded limit s t (resets _) h = omega arith
RunStep-bounded limit s t (runs _) h = omega arith
RunStep-bounded limit s t (retries _ l) h = omega (arith, l)
RunStep-bounded limit s t (fails _) h = h

Move-bounded : {limit : ℕ} {s t : Standing} → Move limit s t → s.retries ≤ limit → t.retries ≤ limit
Move-bounded pauses h = h
Move-bounded (resumes e) h = h
Move-bounded (starts g) h = h
Move-bounded (ends g) h = h
Move-bounded (run g step) h = RunStep-bounded _ _ _ step h

pub Moves-bounded :
    {limit : ℕ} {s t : Standing} → Moves limit s t → s.retries ≤ limit → t.retries ≤ limit
Moves-bounded here h = h
Moves-bounded (next m move) h = Move-bounded move (Moves-bounded m h)
