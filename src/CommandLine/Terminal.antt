-- ===== src/CommandLine/Terminal.antt =====
-- pkg/cli/cmd: what the commands call that they do not implement: the Kubernetes client that
-- `getKubeClient` connects, the clock, and the terminal.
use k8s_chaos.Prelude.{ℕ, String, List, [], ◌∷◌, Option, [], ◌∷◌}
use k8s_chaos.Go.{Message, Result, ok, err, wrapf, end}
use k8s_chaos.Api.{ChaosExperiment}
use k8s_chaos.Client.{M, ◌>>◌, return}

pub record Terminal (W : Type 0) : Type 0 where
  pub connect : M W (Result (Unit {0}))
  pub now : M W ℕ
  -- The experiments of a namespace, or of all where it is empty.
  pub list_experiments : String → M W (Result (List ChaosExperiment))
  pub get_experiment : String → String → M W (Result ChaosExperiment)
  pub delete_experiment : ChaosExperiment → M W (Result (Unit {0}))
  pub print : Message → M W (Unit {0})
  -- `fmt.Scanln` of one word, which fails on an empty line.
  pub scan_line : M W (Option String)

module _ {W : Type 0} (t : Terminal W) where
  open t use {print}

  unfoldable pub print_lines : List Message → M W (Unit {0})
  print_lines [] = return tt
  print_lines (line ∷ lines) = do print line; print_lines lines

module _ {W A B : Type 0} where
  -- A failed call ends the command with its error, wrapped.
  abbrev pub or_fail : String → (A → M W (Result B)) → Result A → M W (Result B)
  or_fail format k (err e) = return (err (wrapf format end e))
  or_fail format k (ok a) = k a
