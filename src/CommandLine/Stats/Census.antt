-- ===== src/CommandLine/Stats/Census.antt =====
-- pkg/cli/cmd/stats.go: the statistics against the experiments that are listed.
use k8s_chaos.Prelude.{
  ℕ, suc, ◌+◌, ◌≤◌, ◌≡◌, refl, ltb, String, List, [], ◌∷◌, Bool, true, false, not, ◌==◌,
  if◌then◌else◌, select, length, arith, eq_iff,
}
use k8s_chaos.Api.{ChaosExperiment}
use k8s_chaos.CommandLine.Stats.{
  Stats, increment, count_phase, count_experiment, count_each, no_stats, calculate_stats,
}

-- The number of experiments that pass a test.
abbrev pub number_of : (ChaosExperiment → Bool) → List ChaosExperiment → ℕ
number_of p exps = length (select p exps)

abbrev pub in_phase : String → ChaosExperiment → Bool
in_phase phase exp = exp.status.phase == phase

abbrev pub has_action : String → ChaosExperiment → Bool
has_action action exp = exp.spec.action == action

abbrev pub retries : ChaosExperiment → Bool
retries exp = ltb 0 exp.spec.max_retries

abbrev pub ends : ChaosExperiment → Bool
ends exp = not (exp.spec.experiment_duration == "")

-- The value of an entry, 0 without one, and the sum of all values.
abbrev pub entry : String → List (String × ℕ) → ℕ
entry k [] = 0
entry k ((name, n) ∷ rest) = let found = entry k rest in if name == k then n else found

abbrev pub sum_of : List (String × ℕ) → ℕ
sum_of [] = 0
sum_of ((name, n) ∷ rest) = n + sum_of rest

entry-increment :
    (action k : String) (m : List (String × ℕ))
    → entry action (increment k m) ≡ (if k == action then 1 else 0) + entry action m
unfolding increment
entry-increment action k [] = ground (arith)
entry-increment action k ((name, n) ∷ rest) = grind (arith, eq_iff, entry-increment action k rest)

sum_of-increment : (k : String) (m : List (String × ℕ)) → sum_of (increment k m) ≡ suc (sum_of m)
unfolding increment
sum_of-increment k [] = omega arith
sum_of-increment k ((name, n) ∷ rest) = ground (arith, sum_of-increment k rest)

-- What the loop over the experiments adds to the statistics `s`.
record Counted (s t : Stats) (exps : List ChaosExperiment) : Type 0 where
  total : t.total ≡ s.total + length exps
  running : t.running ≡ s.running + number_of (in_phase "Running") exps
  completed : t.completed ≡ s.completed + number_of (in_phase "Completed") exps
  failed : t.failed ≡ s.failed + number_of (in_phase "Failed") exps
  pending : t.pending ≡ s.pending + number_of (in_phase "Pending") exps
  entries :
      (action : String)
      → entry action t.by_action ≡ entry action s.by_action + number_of (has_action action) exps
  sum : sum_of t.by_action ≡ sum_of s.by_action + length exps
  with_retry : t.with_retry ≡ s.with_retry + number_of retries exps
  time_limited : t.time_limited ≡ s.time_limited + number_of ends exps

apart : (x a b : String) → (a == b) ≡ false → (x == a) ≡ true → (x == b) ≡ false
apart x a b differ same = rw ((eq_iff x a).0 same) differ

count_phase-by_action : (phase : String) (s : Stats) → (count_phase phase s).by_action ≡ s.by_action
unfolding count_phase
count_phase-by_action phase s = ground arith

count_experiment-Counted :
    (s : Stats) (exp : ChaosExperiment) → Counted s (count_experiment s exp) (exp ∷ [])
unfolding count_experiment count_phase
count_experiment-Counted s exp = record {
  total = ground arith;
  running = grind (arith, eq_iff);
  completed = grind (arith, apart exp.status.phase "Running" "Completed" refl);
  failed = grind (
    arith,
    apart exp.status.phase "Running" "Failed" refl,
    apart exp.status.phase "Completed" "Failed" refl,
  );
  pending = grind (
    arith,
    apart exp.status.phase "Running" "Pending" refl,
    apart exp.status.phase "Completed" "Pending" refl,
    apart exp.status.phase "Failed" "Pending" refl,
  );
  entries = λ action. grind (arith, count_phase-by_action, entry-increment action exp.spec.action);
  sum = grind (arith, count_phase-by_action, sum_of-increment exp.spec.action);
  with_retry = ground arith;
  time_limited = ground arith;
}

length-select-cons :
    (p : ChaosExperiment → Bool) (exp : ChaosExperiment) (exps : List ChaosExperiment)
    → number_of p (exp ∷ exps) ≡ number_of p (exp ∷ []) + number_of p exps
length-select-cons p exp exps = ground arith

Counted-trans :
    {s t u : Stats} {exp : ChaosExperiment} {exps : List ChaosExperiment}
    → Counted s t (exp ∷ [])
    → Counted t u exps
    → Counted s u (exp ∷ exps)
Counted-trans first rest = record {
  total = omega (arith, first.total, rest.total);
  running = grind (arith, first.running, rest.running, length-select-cons);
  completed = grind (arith, first.completed, rest.completed, length-select-cons);
  failed = grind (arith, first.failed, rest.failed, length-select-cons);
  pending = grind (arith, first.pending, rest.pending, length-select-cons);
  entries = λ action. grind (arith, first.entries action, rest.entries action, length-select-cons);
  sum = omega (arith, first.sum, rest.sum);
  with_retry = grind (arith, first.with_retry, rest.with_retry, length-select-cons);
  time_limited = grind (arith, first.time_limited, rest.time_limited, length-select-cons);
}

count_each-Counted : (s : Stats) (exps : List ChaosExperiment) → Counted s (count_each s exps) exps
unfolding count_each
count_each-Counted s [] = record {
  total = omega arith;
  running = omega arith;
  completed = omega arith;
  failed = omega arith;
  pending = omega arith;
  entries = λ action. omega arith;
  sum = omega arith;
  with_retry = omega arith;
  time_limited = omega arith;
}
count_each-Counted s (exp ∷ exps) =
    Counted-trans (count_experiment-Counted s exp)
      (count_each-Counted (count_experiment s exp) exps)

-- In one phase at most, of the four that are counted.
phases_bounded :
    (exps : List ChaosExperiment)
    → number_of (in_phase "Running") exps
        + number_of (in_phase "Completed") exps
        + number_of (in_phase "Failed") exps
        + number_of (in_phase "Pending") exps
      ≤ length exps
phases_bounded [] = omega arith
phases_bounded (exp ∷ exps) = grind (
  arith,
  phases_bounded exps,
  apart exp.status.phase "Running" "Completed" refl,
  apart exp.status.phase "Running" "Failed" refl,
  apart exp.status.phase "Running" "Pending" refl,
  apart exp.status.phase "Completed" "Failed" refl,
  apart exp.status.phase "Completed" "Pending" refl,
  apart exp.status.phase "Failed" "Pending" refl,
)

-- What the statistics say of the experiments.
pub record IsCensus (s : Stats) (exps : List ChaosExperiment) : Type 0 where
  pub total : s.total ≡ length exps
  pub running : s.running ≡ number_of (in_phase "Running") exps
  pub completed : s.completed ≡ number_of (in_phase "Completed") exps
  pub failed : s.failed ≡ number_of (in_phase "Failed") exps
  pub pending : s.pending ≡ number_of (in_phase "Pending") exps
  pub phases : s.running + s.completed + s.failed + s.pending ≤ s.total
  pub actions : (action : String) → entry action s.by_action ≡ number_of (has_action action) exps
  pub sum : sum_of s.by_action ≡ s.total
  pub with_retry : s.with_retry ≡ number_of retries exps
  pub time_limited : s.time_limited ≡ number_of ends exps

-- The statistics of a list of experiments count, in one pass over it, all experiments, those of each of
-- the phases Running, Completed, Failed and Pending, those of each action, those with retries, and those
-- with a duration. The phases add up to no more than the total, and the actions to exactly the total.
pub calculate_stats-IsCensus : (exps : List ChaosExperiment) → IsCensus (calculate_stats exps) exps
unfolding calculate_stats
calculate_stats-IsCensus exps =
    let c = count_each-Counted no_stats exps in
    record {
      total = omega (arith, c.total);
      running = omega (arith, c.running);
      completed = omega (arith, c.completed);
      failed = omega (arith, c.failed);
      pending = omega (arith, c.pending);
      phases =
          omega (arith, phases_bounded exps, c.total, c.running, c.completed, c.failed, c.pending);
      actions = λ action. omega (arith, c.entries action);
      sum = omega (arith, c.sum, c.total);
      with_retry = omega (arith, c.with_retry);
      time_limited = omega (arith, c.time_limited);
    }
