-- ===== src/CommandLine/Stats.antt =====
-- pkg/cli/cmd/stats.go: what the command `stats` counts.
pub mod Census
pub mod Printing
use k8s_chaos.Prelude.{ℕ, suc, ◌+◌, ltb, String, List, [], ◌∷◌, ◌==◌, not, if◌then◌else◌}
use k8s_chaos.Api.{ChaosExperiment}

-- `ByAction`, a Go map, as the list of its entries.
pub record Stats : Type 0 where
  pub total : ℕ
  pub running : ℕ
  pub completed : ℕ
  pub failed : ℕ
  pub pending : ℕ
  pub by_action : List (String × ℕ)
  pub with_retry : ℕ
  pub time_limited : ℕ

-- `m[k]++`: a missing key counts as 0.
unfoldable pub increment : String → List (String × ℕ) → List (String × ℕ)
increment k [] = (k, 1) ∷ []
increment k ((name, n) ∷ rest) =
    let more = increment k rest in if name == k then (name, suc n) ∷ rest else (name, n) ∷ more

-- The switch on the phase.
unfoldable pub count_phase : String → Stats → Stats
count_phase phase s =
    if phase == "Running"
    then record s { running = suc s.running }
    else if phase == "Completed"
    then record s { completed = suc s.completed }
    else if phase == "Failed"
    then record s { failed = suc s.failed }
    else if phase == "Pending"
    then record s { pending = suc s.pending }
    else s

-- One round of the loop.
unfoldable pub count_experiment : Stats → ChaosExperiment → Stats
unfolding increment count_phase
count_experiment s exp =
    let s1 = count_phase exp.status.phase (record s { total = suc s.total }) in
    record s1 {
      by_action = increment exp.spec.action s1.by_action;
      with_retry = if ltb 0 exp.spec.max_retries then suc s1.with_retry else s1.with_retry;
      time_limited =
          if exp.spec.experiment_duration == "" then s1.time_limited else suc s1.time_limited;
    }

unfoldable pub count_each : Stats → List ChaosExperiment → Stats
unfolding count_experiment
count_each s [] = s
count_each s (exp ∷ exps) = count_each (count_experiment s exp) exps

abbrev pub no_stats : Stats
no_stats = record {
  total = 0;
  running = 0;
  completed = 0;
  failed = 0;
  pending = 0;
  by_action = [];
  with_retry = 0;
  time_limited = 0;
}

unfoldable pub calculate_stats : List ChaosExperiment → Stats
unfolding count_each
calculate_stats experiments = count_each no_stats experiments
