-- ===== src/Controller/Handlers/Injection.antt =====
-- internal/controller/chaosexperiment_controller.go: what the handlers that work on pods share: the
-- search for targets, and the loop that injects a container into each of those chosen.
use k8s_chaos.Prelude.{String, List, [], ◌∷◌, Option, none, some, take, if◌then◌else◌}
use k8s_chaos.Go.{Message, GoError, Result, ok, err}
use k8s_chaos.Api.{ChaosExperiment, Pod}
use k8s_chaos.Client.{M, ◌>>=◌, ◌>>◌, return}
use k8s_chaos.Controller.Errors.{ChaosError}
use k8s_chaos.Controller.Outcome.{Handled, failed_with}
use k8s_chaos.Controller.Failure.{handle_experiment_failure}
use k8s_chaos.Controller.Targets.{get_eligible_pods, target_count}
use k8s_chaos.Controller.Ephemeral.{track_affected_pod}
use k8s_chaos.Controller.Handlers.Common.{Reconciler, nothing_found, preview}
use k8s_chaos.Controller.Handlers.Requirements.{Checked, refused, accepted}

abbrev pub no_eligible_pods : String
no_eligible_pods = "No eligible pods found matching selector"

module _ {W : Type 0} (r : Reconciler W) where
  open r.client use {shuffle, event}

  -- A handler goes on where its requirements are met, and fails where they are not.
  unfoldable pub require :
      {A : Type 0} → ChaosExperiment → Checked ChaosError A → (A → M W Handled) → M W Handled
  require exp (refused ce) next = handle_experiment_failure r.client exp ce
  require exp (accepted a) next = next a

  -- `return ctrl.Result{}, err`.
  abbrev pub raw_failure : ChaosExperiment → GoError → M W Handled
  raw_failure exp e = return (failed_with e, exp)

  -- What follows `getEligiblePods`, up to the end of the dry run; `attack` is the rest.
  unfoldable pub on_found :
      ChaosExperiment
      → (GoError → M W Handled)
      → (nothing action_type : String) → (List Pod → M W Handled)
      → Result (List Pod)
      → M W Handled
  on_found exp on_error nothing action_type attack (err e) = on_error e
  on_found exp on_error nothing action_type attack (ok []) = nothing_found r exp nothing
  on_found exp on_error nothing action_type attack (ok (p ∷ ps)) =
      if exp.spec.dry_run then preview r exp (p ∷ ps) action_type else attack (p ∷ ps)

  unfoldable pub on_eligible_pods :
      ChaosExperiment
      → (GoError → M W Handled)
      → (nothing action_type : String) → (List Pod → M W Handled)
      → M W Handled
  unfolding on_found
  on_eligible_pods exp on_error nothing action_type attack = do
    found ← get_eligible_pods r.client exp
    on_found exp on_error nothing action_type attack found

  -- The event on a pod whose container has the name.
  abbrev pub announce : String → Message → String → M W (Option String)
  announce reason text name = do event "Warning" reason text; return (some name)

  -- The loop: each pod whose container was injected is kept in the status and counted as hit.
  unfoldable pub inject_each :
      (Pod → M W (Option String)) → List Pod → ChaosExperiment → M W (ChaosExperiment × List String)
  inject_each attack [] exp = return (exp, [])
  inject_each attack (pod ∷ pods) exp = do
    injected ← attack pod
    elim injected [
      | none ↦ inject_each attack pods exp
      | some name ↦ do
        (exp', hits) ← inject_each attack pods (track_affected_pod exp pod.namespace pod.name name)
        return (exp', pod.name ∷ hits)
    ]

  -- Shuffle, choose, inject.
  unfoldable pub inject_pods :
      ChaosExperiment → (Pod → M W (Option String)) → List Pod → M W (ChaosExperiment × List String)
  unfolding inject_each
  inject_pods exp attack eligible = do
    shuffled ← shuffle eligible
    inject_each attack (take (target_count exp.spec shuffled) shuffled) exp
