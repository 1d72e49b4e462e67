-- ===== src/CommandLine/Details.antt =====
-- pkg/cli/cmd/describe.go: the command `describe`. The layout of a time is a parameter.
use k8s_chaos.Prelude.{
  ℕ, suc, String, List, [], ◌∷◌, ◌++◌, Option, none, some, ltb, length, ◌==◌, if◌then◌else◌,
}
use k8s_chaos.Go.{Message, lit, fmt, msg, str, strs, int, num, end, Result, ok, err, errorf}
use k8s_chaos.Api.{
  TimeWindow, time_window_recurring, ChaosExperiment, ChaosExperimentSpec, ChaosExperimentStatus,
}
use k8s_chaos.Client.{M, ◌>>=◌, ◌>>◌, return}
use k8s_chaos.CommandLine.Terminal.{Terminal, or_fail, print_lines}
use k8s_chaos.CommandLine.Texts.{format_age, format_selector_multiline}

-- A line for a text that is set.
abbrev unless_empty : String → Message → List Message
unless_empty value line = if value == "" then [] else line ∷ []

window_line : ℕ → TimeWindow → Message
window_line n w =
    if w.window_type == time_window_recurring
    then fmt "    [%d] Recurring: %s-%s (%v) TZ:%s\n"
        (num n (str w.start (str w.finish (strs w.days_of_week (str w.timezone end)))))
    else fmt "    [%d] Absolute:  %s to %s\n" (num n (str w.start (str w.finish end)))

window_lines : ℕ → List TimeWindow → List Message
unfolding window_line
window_lines n [] = []
window_lines n (w ∷ ws) = window_line n w ∷ window_lines (suc n) ws

-- The number of windows, and a line for each.
unfoldable pub windows_part : String → List TimeWindow → List Message
unfolding window_lines
windows_part format [] = []
windows_part format (w ∷ ws) = fmt format (num (length (w ∷ ws)) end) ∷ window_lines 1 (w ∷ ws)

depends_part : List String → List Message
depends_part [] = []
depends_part (d ∷ ds) = fmt "  Depends On:          %v\n" (strs (d ∷ ds) end) ∷ []

unfoldable pub spec_part : ChaosExperimentSpec → List Message
unfolding format_selector_multiline windows_part depends_part
spec_part spec =
    lit "Spec:\n"
      ∷ fmt "  Action:              %s\n" (str spec.action end)
      ∷ fmt "  Target Namespace:    %s\n" (str spec.namespace end)
      ∷ fmt "  Selector:            %s\n" (str (format_selector_multiline spec.selector) end)
      ∷ fmt "  Count:               %d\n" (int spec.count end)
      ∷ depends_part spec.depends_on
    ++ unless_empty spec.duration (fmt "  Duration:            %s\n" (str spec.duration end))
    ++ (if spec.experiment_duration == ""
        then lit "  Experiment Duration: ∞ (runs indefinitely)\n"
        else fmt "  Experiment Duration: %s\n" (str spec.experiment_duration end))
      ∷ unless_empty spec.schedule (fmt "  Schedule:            %s\n" (str spec.schedule end))
    ++ windows_part "  Time Windows:        %d configured\n" spec.time_windows
    ++ windows_part "  Maintenance Windows: %d configured\n" spec.maintenance_windows

unfoldable pub retry_part : ChaosExperimentSpec → List Message
retry_part spec =
    lit "Retry Configuration:\n"
    ∷ fmt "  Max Retries:         %d\n" (num spec.max_retries end)
    ∷ fmt "  Retry Backoff:       %s\n" (str spec.retry_backoff end)
    ∷ fmt "  Retry Delay:         %s\n" (str spec.retry_delay end)
    ∷ []

-- `Format` of a time, and the rendering of a message.
module _ (layout : ℕ → String) (sprintf : Message → String) where
  time_part : String → Option ℕ → List Message
  time_part format none = []
  time_part format (some t) = fmt format (str (layout t) end) ∷ []

  -- What is shown of a retry, where there has been one.
  retried_part : ChaosExperimentStatus → List Message
  unfolding time_part
  retried_part status =
      fmt "  Retry Count:         %d\n" (num status.retry_count end)
        ∷ unless_empty (sprintf status.last_error)
            (fmt "  Last Error:          %s\n" (msg status.last_error end))
      ++ time_part "  Next Retry Time:     %s\n" status.next_retry_time

  unfoldable pub status_part : ChaosExperimentStatus → List Message
  unfolding time_part retried_part
  status_part status =
      lit "Status:\n"
        ∷ fmt "  Phase:               %s\n" (str status.phase end)
        ∷ fmt "  Message:             %s\n" (msg status.message end)
        ∷ time_part "  Start Time:          %s\n" status.start_time
      ++ time_part "  Last Run Time:       %s\n" status.last_run_time
      ++ time_part "  Completed At:        %s\n" status.completed_at
      ++ (if ltb 0 status.retry_count then retried_part status else [])

  -- `printExperimentDetails` behind the name and the namespace, with the age of the experiment.
  unfoldable pub experiment_details : ChaosExperiment → Message → List Message
  unfolding spec_part retry_part status_part
  experiment_details exp age =
      fmt "Created:      %s (Age: %s)\n" (str (layout exp.creation_timestamp) (msg age end))
        ∷ lit "\n"
        ∷ spec_part exp.spec
      ++ lit "\n" ∷ retry_part exp.spec
      ++ lit "\n" ∷ status_part exp.status

  module _ {W : Type 0} (t : Terminal W) where
    open t use {connect, now, get_experiment, print}

    unfoldable pub print_experiment_details : ChaosExperiment → M W (Result (Unit {0}))
    unfolding experiment_details print_lines format_age
    print_experiment_details exp = do
      print (fmt "Name:         %s\n" (str exp.name end))
      print (fmt "Namespace:    %s\n" (str exp.namespace end))
      at ← now
      print_lines t (experiment_details exp (format_age at exp.creation_timestamp))
      return (ok tt)

    unfoldable pub run_describe : String → String → M W (Result (Unit {0}))
    unfolding print_experiment_details
    run_describe namespace name =
        if namespace == ""
        then return (err (errorf "namespace is required, use -n flag to specify" end))
        else do
          connected ← connect
          or_fail "failed to get Kubernetes client: %w"
              (λ u. do
                found ← get_experiment namespace name
                or_fail "failed to get experiment: %w" print_experiment_details found)
              connected
