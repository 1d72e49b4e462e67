-- ===== src/Controller/Handlers/HostPods/Panics.antt =====
-- internal/controller/chaosexperiment_controller.go: what the handlers that create pods on nodes report.
use k8s_chaos.Prelude.{
  ℕ, ◌≡◌, ap, ◌∙◌, ◌⊎◌, inl, inr, String, List, [], ◌∷◌, some, map, take, Option-cases, arith,
}
use k8s_chaos.Go.{Message, Result, Result-cases}
use k8s_chaos.Api.{ChaosExperiment, Node}
use k8s_chaos.Client.{M}
use k8s_chaos.Controller.Outcome.{failed_with}
use k8s_chaos.Controller.Targets.{target_count}
use k8s_chaos.Controller.Handlers.Common.{Reconciler}
use k8s_chaos.Controller.Handlers.Conclusion.{Report, conclude}
use k8s_chaos.Controller.Handlers.HostPods.{deploy_each, report_deployed, deploy_on_nodes}

abbrev pub node_name : Node → String
node_name n = n.name

module _ {W : Type 0} (r : Reconciler W) (deploy_on : Node → M W (Result String)) (reason : String)
    (text : String → Message) where
  deploy_each-all :
      (nodes : List Node) (names : List String) (w : W)
      → (deploy_each r deploy_on reason text nodes w).0 ≡ some names
      → names ≡ map node_name nodes
  unfolding deploy_each
  deploy_each-all [] names w h = ground (arith, h)
  deploy_each-all (node ∷ nodes) names w h =
      let (deployed, w1) = deploy_on node w in
      elim (Result-cases deployed) [
        | inr (e, q) ↦ absurd (ground (arith, q, h))
        | inl (name, q) ↦
            let (u, w2) = r.client.event "Warning" reason (text name) w1 in
            elim (Option-cases (deploy_each r deploy_on reason text nodes w2).0) [
              | inl o ↦ absurd (ground (arith, q, o, h))
              | inr (more, o) ↦
                  let ih = deploy_each-all nodes more w2 o in ground (arith, q, o, h, ih)
            ]
      ]

  -- Where a shuffle has chosen the nodes, the handler either ends with the error of a panic and the
  -- experiment as it was, or it reports a pod on every one of the chosen nodes: a pod that cannot be
  -- created is never reported as a part of the run that failed.
  pub deploy_on_nodes-all :
      (exp : ChaosExperiment) (started : ℕ) (report : Report) (nodes : List Node) (w : W)
      → let shuffled = (r.client.shuffle_nodes nodes w).0 in
        let chosen = take (target_count exp.spec shuffled) shuffled in
        ((deploy_on_nodes r exp started deploy_on reason text report nodes w).0
          ≡ (failed_with r.recovered, exp))
        ⊎ ((v : W) × (deploy_on_nodes r exp started deploy_on reason text report nodes w
              ≡ conclude r exp report started (map node_name chosen) v))
  unfolding deploy_on_nodes report_deployed
  deploy_on_nodes-all exp started report nodes w =
      let (shuffled, w1) = r.client.shuffle_nodes nodes w in
      let chosen = take (target_count exp.spec shuffled) shuffled in
      let (deployed, w2) = deploy_each r deploy_on reason text chosen w1 in
      elim (Option-cases deployed) [
        | inl o ↦ inl (ap (λ d. (report_deployed r exp started report d w2).0) o)
        | inr (names, o) ↦ inr (
          w2,
          ap (λ d. report_deployed r exp started report d w2) o
              ∙ ap (λ ns. report_deployed r exp started report (some ns) w2)
                  (deploy_each-all chosen names w1 o),
        )
      ]
