-- ===== src/CommandLine/Top.antt =====
-- pkg/cli/cmd/top.go: the command `top`. `sort.Slice`, which is not stable, is a parameter.
pub mod Ranking
use k8s_chaos.Prelude.{
  ℕ, ℤ, pos, negsuc, suc, ◌+◌, ◌-◌, String, List, [], ◌∷◌, Bool, true, false, ltb, leb, select,
  take, to_ℕ, ◌==◌, if◌then◌else◌,
}
use k8s_chaos.Go.{Message, lit, fmt, msg, str, num, end, Result, ok}
use k8s_chaos.Api.{ChaosExperiment}
use k8s_chaos.Client.{M, ◌>>=◌, ◌>>◌, return}
use k8s_chaos.CommandLine.Terminal.{Terminal, or_fail}
use k8s_chaos.CommandLine.Texts.{since, format_age}

pub record ExperimentMetrics : Type 0 where
  pub name : String
  pub namespace : String
  pub action : String
  pub retry_count : ℕ
  pub phase : String
  pub age : ℤ
  pub target_ns : String

unfoldable pub metrics_of : ChaosExperiment → ℤ → ExperimentMetrics
metrics_of exp age = record {
  name = exp.name;
  namespace = exp.namespace;
  action = exp.spec.action;
  retry_count = exp.status.retry_count;
  phase = exp.status.phase;
  age = age;
  target_ns = exp.spec.namespace;
}

-- `a < b`.
abbrev pub shorter : ℤ → ℤ → Bool
shorter (pos a) (pos b) = ltb a b
shorter (pos a) (negsuc b) = false
shorter (negsuc a) (pos b) = true
shorter (negsuc a) (negsuc b) = ltb b a

-- `t.Add(-age)`.
abbrev before : ℕ → ℤ → ℕ
before t (pos n) = t - n
before t (negsuc n) = t + suc n

-- `count >= limit`.
abbrev pub reaches : ℤ → ℕ → Bool
reaches (pos l) count = leb l count
reaches (negsuc l) count = true

abbrev pub has_retries : ExperimentMetrics → Bool
has_retries m = ltb 0 m.retry_count

-- The functions `less` of the three tables.
abbrev pub more_retries : ExperimentMetrics → ExperimentMetrics → Bool
more_retries a b = ltb b.retry_count a.retry_count

abbrev pub older : ExperimentMetrics → ExperimentMetrics → Bool
older a b = shorter b.age a.age

abbrev pub younger : ExperimentMetrics → ExperimentMetrics → Bool
younger a b = shorter a.age b.age

abbrev pub has_failed : ExperimentMetrics → Bool
has_failed m = m.phase == "Failed"

-- The loop of `printTopByRetries`: the metrics that get a row, where `count` have one already.
unfoldable pub retry_rows : ℤ → ℕ → List ExperimentMetrics → List ExperimentMetrics
retry_rows limit count [] = []
retry_rows limit count (m ∷ ms) =
    let rest = retry_rows limit (if has_retries m then suc count else count) ms in
    if reaches limit count then [] else if has_retries m then m ∷ rest else rest

-- `sort.Slice`, given the function `less`.
abbrev pub Sorter : Type 0
Sorter =
    (ExperimentMetrics → ExperimentMetrics → Bool) → List ExperimentMetrics → List ExperimentMetrics

module _ (sort : Sorter) where
  unfoldable pub top_by_retries : ℤ → List ExperimentMetrics → List ExperimentMetrics
  unfolding retry_rows
  top_by_retries limit metrics = retry_rows limit 0 (sort more_retries metrics)

  unfoldable pub top_by_age : ℤ → List ExperimentMetrics → List ExperimentMetrics
  top_by_age limit metrics = take (to_ℕ limit) (sort older metrics)

abbrev retry_row : ExperimentMetrics → Message → Message
retry_row m age =
    fmt "%s\t%s\t%s\t%d\t%s\t%s\n"
      (str m.namespace (str m.name (str m.action (num m.retry_count (str m.phase (msg age end))))))

abbrev age_row : ExperimentMetrics → Message → Message
age_row m age =
    fmt "%s\t%s\t%s\t%s\t%s\n"
      (str m.namespace (str m.name (str m.action (str m.phase (msg age end)))))

abbrev failed_row : ExperimentMetrics → Message → Message
failed_row m age =
    fmt "%s\t%s\t%s\t%d\t%s\n"
      (str m.namespace (str m.name (str m.action (num m.retry_count (msg age end)))))

module _ {W : Type 0} (t : Terminal W) (sort : Sorter) where
  open t use {connect, now, list_experiments, print}

  unfoldable pub collect : List ChaosExperiment → M W (List ExperimentMetrics)
  unfolding metrics_of since
  collect [] = return []
  collect (exp ∷ exps) = do
    at ← now
    rest ← collect exps
    return (metrics_of exp (since at exp.creation_timestamp) ∷ rest)

  -- A row for each, with `formatAge(time.Now().Add(-m.Age))`, which reads the clock again.
  print_rows : (ExperimentMetrics → Message → Message) → List ExperimentMetrics → M W (Unit {0})
  unfolding format_age
  print_rows row [] = return tt
  print_rows row (m ∷ ms) = do
    at ← now
    later ← now
    print (row m (format_age later (before at m.age)))
    print_rows row ms

  or_nothing :
      String → (ExperimentMetrics → Message → Message) → List ExperimentMetrics → M W (Unit {0})
  unfolding print_rows
  or_nothing text row [] = print (lit text)
  or_nothing text row (m ∷ ms) = print_rows row (m ∷ ms)

  unfoldable pub print_top_by_retries : ℤ → List ExperimentMetrics → M W (Unit {0})
  unfolding top_by_retries or_nothing
  print_top_by_retries limit metrics = do
    print (lit "NAMESPACE\tNAME\tACTION\tRETRIES\tPHASE\tAGE\n")
    or_nothing "No experiments with retries found\n" retry_row (top_by_retries sort limit metrics)

  unfoldable pub print_top_by_age : ℤ → List ExperimentMetrics → M W (Unit {0})
  unfolding top_by_age print_rows
  print_top_by_age limit metrics = do
    print (lit "NAMESPACE\tNAME\tACTION\tPHASE\tAGE\n")
    print_rows age_row (top_by_age sort limit metrics)

  print_failed_rows : List ExperimentMetrics → M W (Unit {0})
  unfolding print_rows
  print_failed_rows [] = print (lit "No failed experiments\n")
  print_failed_rows (m ∷ ms) = do
    print (lit "NAMESPACE\tNAME\tACTION\tRETRIES\tAGE\n")
    print_rows failed_row (sort younger (m ∷ ms))

  unfoldable pub print_failed : List ExperimentMetrics → M W (Unit {0})
  unfolding print_failed_rows
  print_failed metrics = print_failed_rows (select has_failed metrics)

  -- `runTop` on the listed experiments.
  unfoldable pub show_top : ℤ → List ChaosExperiment → M W (Result (Unit {0}))
  unfolding collect print_top_by_retries print_top_by_age print_failed
  show_top limit [] = do print (lit "No chaos experiments found\n"); return (ok tt)
  show_top limit (exp ∷ exps) = do
    metrics ← collect (exp ∷ exps)
    print (lit "=== Top Experiments by Retry Count ===\n")
    print_top_by_retries limit metrics
    print (lit "\n")
    print (lit "=== Top Experiments by Age ===\n")
    print_top_by_age limit metrics
    print (lit "\n")
    print (lit "=== Failed Experiments ===\n")
    print_failed metrics
    return (ok tt)

  unfoldable pub run_top : String → ℤ → M W (Result (Unit {0}))
  unfolding show_top
  run_top namespace limit = do
    connected ← connect
    or_fail "failed to get Kubernetes client: %w"
        (λ u. do
          listed ← list_experiments namespace
          or_fail "failed to list chaos experiments: %w" (show_top limit) listed)
        connected
