-- ===== src/CommandLine/Stats/Printing.antt =====
-- pkg/cli/cmd/stats.go: what the command `stats` prints. A percentage is the fraction that the code rounds
-- to one digit; its denominator is 0 where there is no experiment.
use k8s_chaos.Prelude.{ℕ, ◌-◌, ◌*◌, String, List, [], ◌∷◌, ◌++◌, ltb, ◌==◌, if◌then◌else◌}
use k8s_chaos.Go.{Message, Args, lit, fmt, str, num, float, end, Result, ok}
use k8s_chaos.Api.{ChaosExperiment}
use k8s_chaos.Client.{M, ◌>>=◌, ◌>>◌, return}
use k8s_chaos.CommandLine.Terminal.{Terminal, or_fail, print_lines}
use k8s_chaos.CommandLine.Stats.{Stats, calculate_stats}

-- `float64(n) / float64(total) * 100`.
abbrev percentage : ℕ → ℕ → Args
percentage n total = float (n * 100) total end

action_rows : ℕ → List (String × ℕ) → List Message
action_rows total [] = []
action_rows total ((action, n) ∷ rest) =
    fmt "  %s\t%d\t%.1f%%\n" (str action (num n (percentage n total))) ∷ action_rows total rest

action_part : ℕ → List (String × ℕ) → List Message
unfolding action_rows
action_part total [] = []
action_part total (a ∷ rest) =
    lit "By Action:\n" ∷ lit "  ACTION\tCOUNT\tPERCENTAGE\n" ∷ action_rows total (a ∷ rest)
    ++ lit "\n" ∷ []

rate_part : Stats → List Message
rate_part s =
    if ltb 0 s.total
    then lit "Success Rate:\n"
      ∷ fmt "  Successful:          %.1f%%\n" (percentage s.completed s.total)
      ∷ fmt "  Failed:              %.1f%%\n" (percentage s.failed s.total)
      ∷ lit "\n"
      ∷ []
    else []

unfoldable pub print_stats : Stats → String → List Message
unfolding action_part rate_part
print_stats s ns =
    lit "=== Chaos Experiment Statistics ===\n"
      ∷ (if ns == "" then lit "Namespace: All namespaces\n" else fmt "Namespace: %s\n" (str ns end))
      ∷ lit "\n"
      ∷ lit "Overall:\n"
      ∷ fmt "  Total Experiments:   %d\n" (num s.total end)
      ∷ fmt "  Running:             %d\n" (num s.running end)
      ∷ fmt "  Completed:           %d\n" (num s.completed end)
      ∷ fmt "  Failed:              %d\n" (num s.failed end)
      ∷ fmt "  Pending:             %d\n" (num s.pending end)
      ∷ lit "\n"
      ∷ rate_part s
    ++ action_part s.total s.by_action
    ++ lit "Configuration:\n"
      ∷ fmt "  With Retry Logic:    %d (%.1f%%)\n"
          (num s.with_retry (percentage s.with_retry s.total))
      ∷ fmt "  Time-Limited:        %d (%.1f%%)\n"
          (num s.time_limited (percentage s.time_limited s.total))
      ∷ fmt "  Indefinite:          %d (%.1f%%)\n"
          (num (s.total - s.time_limited) (percentage (s.total - s.time_limited) s.total))
      ∷ []

module _ {W : Type 0} (t : Terminal W) where
  open t use {connect, list_experiments, print}

  show_stats : String → List ChaosExperiment → M W (Result (Unit {0}))
  unfolding print_lines print_stats calculate_stats
  show_stats namespace exps = do
    print_lines t (print_stats (calculate_stats exps) namespace)
    return (ok tt)

  unfoldable pub run_stats : String → M W (Result (Unit {0}))
  unfolding show_stats
  run_stats namespace = do
    connected ← connect
    or_fail "failed to get Kubernetes client: %w"
        (λ u. do
          listed ← list_experiments namespace
          or_fail "failed to list chaos experiments: %w" (show_stats namespace) listed)
        connected
