-- ===== src/CommandLine/Delete.antt =====
-- pkg/cli/cmd/delete.go: the command `delete`.
pub mod Confirmed
use k8s_chaos.Prelude.{String, Bool, true, false, ◌||◌, Option, none, some, ◌==◌, if◌then◌else◌}
use k8s_chaos.Go.{Message, lit, fmt, str, end, Result, ok, err, errorf}
use k8s_chaos.Api.{ChaosExperiment}
use k8s_chaos.Client.{M, ◌>>=◌, ◌>>◌, return}
use k8s_chaos.CommandLine.Terminal.{Terminal, or_fail}

-- Any other answer, or none, is a no.
unfoldable pub confirms : Option String → Bool
confirms none = false
confirms (some response) = response == "y" || response == "Y" || response == "yes"

abbrev pub question : String → String → Message
question namespace name =
    fmt "Are you sure you want to delete experiment '%s' in namespace '%s'? (y/N): "
      (str name (str namespace end))

module _ {W : Type 0} (t : Terminal W) where
  open t use {connect, get_experiment, delete_experiment, print, scan_line}

  unfoldable pub remove : String → ChaosExperiment → M W (Result (Unit {0}))
  remove name exp = do
    deleted ← delete_experiment exp
    or_fail "failed to delete experiment: %w"
        (λ u. do
          print (fmt "Experiment '%s' deleted successfully\n" (str name end))
          return (ok tt))
        deleted

  -- What follows the answer.
  unfoldable pub on_response : String → ChaosExperiment → Option String → M W (Result (Unit {0}))
  unfolding confirms remove
  on_response name exp response =
      if confirms response
      then remove name exp
      else (do print (lit "Deletion cancelled\n"); return (ok tt))

  -- What follows the read of the experiment.
  unfoldable pub confirm : String → Bool → String → ChaosExperiment → M W (Result (Unit {0}))
  unfolding remove on_response
  confirm namespace force name exp =
      if force
      then remove name exp
      else do print (question namespace name); response ← scan_line; on_response name exp response

  unfoldable pub run_delete : String → Bool → String → M W (Result (Unit {0}))
  unfolding confirm
  run_delete namespace force name =
      if namespace == ""
      then return (err (errorf "namespace is required, use -n flag to specify" end))
      else do
        connected ← connect
        or_fail "failed to get Kubernetes client: %w"
            (λ u. do
              found ← get_experiment namespace name
              or_fail "failed to get experiment: %w" (confirm namespace force name) found)
            connected
