-- ===== src/CommandLine/Listing.antt =====
-- pkg/cli/cmd/list.go: the command `list`.
use k8s_chaos.Prelude.{String, List, [], ◌∷◌, Bool, ◌==◌, if◌then◌else◌}
use k8s_chaos.Go.{Message, lit, fmt, msg, str, int, num, end, Result, ok}
use k8s_chaos.Api.{ChaosExperiment}
use k8s_chaos.Client.{M, ◌>>=◌, ◌>>◌, return}
use k8s_chaos.CommandLine.Terminal.{Terminal, or_fail}
use k8s_chaos.CommandLine.Texts.{format_age, format_selector}

abbrev list_header : Bool → Message
list_header wide =
    if wide
    then lit "NAMESPACE\tNAME\tACTION\tTARGET-NS\tSELECTOR\tCOUNT\tPHASE\tRETRIES\tDURATION\tAGE\n"
    else lit "NAMESPACE\tNAME\tACTION\tTARGET-NS\tPHASE\tAGE\n"

unfoldable pub list_row : Bool → ChaosExperiment → Message → Message
unfolding format_selector
list_row wide exp age =
    let duration =
      if exp.spec.experiment_duration == "" then "∞" else exp.spec.experiment_duration in
    if wide
    then fmt "%s\t%s\t%s\t%s\t%s\t%d\t%s\t%d\t%s\t%s\n" (
        str exp.namespace (
          str exp.name (
            str exp.spec.action (
              str exp.spec.namespace (
                str (format_selector exp.spec.selector) (
                  int exp.spec.count (
                    str exp.status.phase
                      (num exp.status.retry_count (str duration (msg age end))))))))))
    else fmt "%s\t%s\t%s\t%s\t%s\t%s\n" (
        str exp.namespace (
          str exp.name
            (str exp.spec.action (str exp.spec.namespace (str exp.status.phase (msg age end))))))

module _ {W : Type 0} (t : Terminal W) where
  open t use {connect, now, list_experiments, print}

  print_list : Bool → List ChaosExperiment → M W (Unit {0})
  unfolding list_row format_age
  print_list wide [] = return tt
  print_list wide (exp ∷ exps) = do
    at ← now
    print (list_row wide exp (format_age at exp.creation_timestamp))
    print_list wide exps

  -- `runList` on the listed experiments.
  unfoldable pub show_list : Bool → List ChaosExperiment → M W (Result (Unit {0}))
  unfolding print_list
  show_list wide [] = do print (lit "No chaos experiments found\n"); return (ok tt)
  show_list wide (exp ∷ exps) = do
    print (list_header wide)
    print_list wide (exp ∷ exps)
    return (ok tt)

  unfoldable pub run_list : String → Bool → M W (Result (Unit {0}))
  unfolding show_list
  run_list namespace wide = do
    connected ← connect
    or_fail "failed to get Kubernetes client: %w"
        (λ u. do
          listed ← list_experiments namespace
          or_fail "failed to list chaos experiments: %w" (show_list wide) listed)
        connected
