-- ===== src/Controller/Handlers/Steps/Nodes.antt =====
-- internal/controller/chaosexperiment_controller.go: the steps of the handlers that work on nodes.
use k8s_chaos.Prelude.{ℕ, refl, inl, inr, Bool-cases, String, List, [], ◌∷◌, Option, some, none}
use k8s_chaos.Go.{Message, GoError, Result, ok, err}
use k8s_chaos.Api.{ChaosExperiment, Node}
use k8s_chaos.Client.{M}
use k8s_chaos.Controller.Outcome.{Handled}
use k8s_chaos.Controller.Failure.{is_permission_denied_error}
use k8s_chaos.Controller.Handlers.Common.{Reconciler}
use k8s_chaos.Controller.Handlers.Conclusion.{Report}
use k8s_chaos.Controller.Handlers.Nodes.{
  note_cordoned, note_tainted, list_failure, previewed, preview_nodes, finish_nodes, on_matching,
  drain_nodes, taint_nodes, taint_matching, handle_node_drain, handle_node_taint,
}
use k8s_chaos.Controller.Handlers.HostPods.{
  on_listed, on_nodes, report_deployed, deploy_on_nodes, handle_node_cpu_stress,
  handle_node_disk_fill,
}
use k8s_chaos.Controller.Machine.{stays, previews, After}
use k8s_chaos.Controller.Handlers.Steps.{
  Steps, if-Ends, Result-Ends, denied_outcome-Steps, handle_experiment_failure-Steps,
  nothing_found-Steps,
}
use k8s_chaos.Controller.Handlers.Steps.Injected.{
  Tracked, untracked-Tracked, unchanged-After, conclude-Steps, require-Steps,
}

pub note_cordoned-Tracked :
    (exp : ChaosExperiment) (names : List String) → Tracked exp (note_cordoned exp names)
unfolding note_cordoned
note_cordoned-Tracked exp names = record { same_standing = refl; same_spec = refl }

pub note_tainted-Tracked :
    (exp : ChaosExperiment) (names : List String) → Tracked exp (note_tainted exp names)
unfolding note_tainted
note_tainted-Tracked exp names = record { same_standing = refl; same_spec = refl }

module _ {W : Type 0} (r : Reconciler W) (exp : ChaosExperiment) where
  pub previewed-After :
      (summary : ℕ → List String → Message) (nodes : List Node) (t : ℕ)
      → After exp (previewed r exp summary nodes t)
  unfolding previewed
  previewed-After summary nodes t = record { step = previews _; kept = refl }

  abbrev Q : Handled → Type 0
  Q handled = After exp handled.1

  preview_nodes-Steps :
      (summary : ℕ → List String → Message) (nodes : List Node)
      → Steps exp (preview_nodes r exp summary nodes)
  unfolding preview_nodes
  preview_nodes-Steps summary nodes w =
      let a = previewed-After summary nodes (r.client.now w).0 in
      Result-Ends Q _ _ _ (λ u w'. a) (λ e w'. a) _

  list_failure-Steps :
      (operation : String) (e : GoError) → Steps exp (list_failure r exp operation e)
  unfolding list_failure
  list_failure-Steps operation e w = elim (Bool-cases (is_permission_denied_error e)) [
    | inl b ↦ rw (list_failure, b) (denied_outcome-Steps r exp operation e w)
    | inr b ↦ rw (list_failure, b) (record { step = stays _; kept = refl })
  ]

  on_matching-Steps :
      (listing : String) (summary : ℕ → List String → Message) (attack : List Node → M W Handled)
      (listed : Result (List Node))
      → ((nodes : List Node) → Steps exp (attack nodes))
      → Steps exp (on_matching r exp listing summary attack listed)
  unfolding on_matching
  on_matching-Steps listing summary attack (err e) k = list_failure-Steps listing e
  on_matching-Steps listing summary attack (ok []) k = nothing_found-Steps r exp _
  on_matching-Steps listing summary attack (ok (n ∷ ns)) k =
      if-Ends Q exp.spec.dry_run _ _ (λ _. preview_nodes-Steps summary (n ∷ ns)) (λ _. k (n ∷ ns))

  finish_nodes-Steps :
      (exp' : ChaosExperiment) (action verb failure : String) (summary : List String → Message)
      (started : ℕ) (reached : List String)
      → Tracked exp exp'
      → Steps exp (finish_nodes r exp' action verb failure summary started reached)
  unfolding finish_nodes
  finish_nodes-Steps exp' action verb failure summary started reached t =
      search (conclude-Steps r exp exp', t)

  drain_nodes-Steps :
      (started : ℕ) (nodes : List Node) → Steps exp (drain_nodes r exp started nodes)
  unfolding drain_nodes
  drain_nodes-Steps started nodes = search (finish_nodes-Steps, note_cordoned-Tracked)

  pub handle_node_drain-Steps : Steps exp (handle_node_drain r exp)
  unfolding handle_node_drain
  handle_node_drain-Steps = search (on_matching-Steps, drain_nodes-Steps)

  taint_nodes-Steps :
      (started : ℕ) (nodes : List Node) → Steps exp (taint_nodes r exp started nodes)
  unfolding taint_nodes
  taint_nodes-Steps started nodes = search (finish_nodes-Steps, note_tainted-Tracked)

  taint_matching-Steps : (started : ℕ) → Steps exp (taint_matching r exp started)
  unfolding taint_matching
  taint_matching-Steps started = search (on_matching-Steps, taint_nodes-Steps)

  pub handle_node_taint-Steps : Steps exp (handle_node_taint r exp)
  unfolding handle_node_taint
  handle_node_taint-Steps =
      search (if-Ends Q, handle_experiment_failure-Steps r, taint_matching-Steps)

  on_listed-Steps :
      (listing operation : String) (summary : ℕ → List String → Message)
      (attack : List Node → M W Handled) (listed : Result (List Node))
      → ((nodes : List Node) → Steps exp (attack nodes))
      → Steps exp (on_listed r exp listing operation summary attack listed)
  unfolding on_listed
  on_listed-Steps listing operation summary attack (err e) k w =
      elim (Bool-cases (is_permission_denied_error e)) [
        | inl b ↦ rw (on_listed, b) (denied_outcome-Steps r exp listing e w)
        | inr b ↦ rw (on_listed, b) (handle_experiment_failure-Steps r exp _ w)
      ]
  on_listed-Steps listing operation summary attack (ok []) k w = nothing_found-Steps r exp _ w
  on_listed-Steps listing operation summary attack (ok (n ∷ ns)) k w =
      if-Ends Q exp.spec.dry_run _ _ (λ _. preview_nodes-Steps summary (n ∷ ns)) (λ _. k (n ∷ ns)) w

  on_nodes-Steps :
      (listing operation : String) (summary : ℕ → List String → Message)
      (attack : List Node → M W Handled)
      → ((nodes : List Node) → Steps exp (attack nodes))
      → Steps exp (on_nodes r exp listing operation summary attack)
  unfolding on_nodes
  on_nodes-Steps listing operation summary attack k w =
      on_listed-Steps listing operation summary attack _ k _

  report_deployed-Steps :
      (started : ℕ) (report : Report) (deployed : Option (List String))
      → Steps exp (report_deployed r exp started report deployed)
  unfolding report_deployed
  report_deployed-Steps started report none w = unchanged-After exp
  report_deployed-Steps started report (some reached) w =
      conclude-Steps r exp exp report started reached untracked-Tracked w

  deploy_on_nodes-Steps :
      (started : ℕ) (deploy_on : Node → M W (Result String)) (reason : String)
      (text : String → Message) (report : Report) (nodes : List Node)
      → Steps exp (deploy_on_nodes r exp started deploy_on reason text report nodes)
  unfolding deploy_on_nodes
  deploy_on_nodes-Steps started deploy_on reason text report nodes = search (report_deployed-Steps)

  pub handle_node_cpu_stress-Steps : Steps exp (handle_node_cpu_stress r exp)
  unfolding handle_node_cpu_stress
  handle_node_cpu_stress-Steps = search (require-Steps r, on_nodes-Steps, deploy_on_nodes-Steps)

  pub handle_node_disk_fill-Steps : Steps exp (handle_node_disk_fill r exp)
  unfolding handle_node_disk_fill
  handle_node_disk_fill-Steps = search (require-Steps r, on_nodes-Steps, deploy_on_nodes-Steps)
