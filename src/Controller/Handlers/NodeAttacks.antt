-- ===== src/Controller/Handlers/NodeAttacks.antt =====
-- internal/controller/chaosexperiment_controller.go: what the handlers that work on nodes do to nodes and
-- to the pods on them.
use k8s_chaos.Prelude.{ℕ, ◌≡◌, String, List, [], ◌∷◌, false, arith}
use k8s_chaos.Go.{Message, Result}
use k8s_chaos.Api.{ChaosExperiment, Pod, HostPod, Node}
use k8s_chaos.Client.{M, Client}
use k8s_chaos.Controller.Frame.{Keeps, Quiet, if-Keeps}
use k8s_chaos.Controller.Nodes.{
  is_skipped, cordon_node, taint_node, drain_node, evict_pods, uncordon_node, untaint_node,
}
use k8s_chaos.Controller.Handlers.Common.{Reconciler}
use k8s_chaos.Controller.Handlers.Nodes.{
  Progress, drain_one, taint_one, visit_nodes, choose_and_visit,
}
use k8s_chaos.Controller.Handlers.Deployments.{
  deploy_node_cpu_stress_pod, deploy_node_disk_fill_pod,
}
use k8s_chaos.Controller.Handlers.HostPods.{deploy_each}

-- The calls that work on nodes keep `P`; an eviction has to for the pods only that a drain evicts.
pub record NodeAttacks {W : Type 0} (c : Client W) (P : W → Type 0) : Type 0 where
  pub lists : (selector : List (String × String)) → Keeps P (c.list_nodes selector)
  pub shuffles : (nodes : List Node) → Keeps P (c.shuffle_nodes nodes)
  pub reads : (name : String) → Keeps P (c.get_node name)
  pub updates : (node : Node) → Keeps P (c.update_node node)
  pub lists_pods : (name : String) → Keeps P (c.list_pods_on_node name)
  pub evicts : (pod : Pod) → is_skipped pod ≡ false → Keeps P (c.evict_pod pod 30)
  pub creates : (pod : HostPod) → Keeps P (c.create_pod pod)

module _ {W : Type 0} (c : Client W) (P : W → Type 0) (a : NodeAttacks c P) where
  cordon_node-Keeps : (node : Node) → Keeps P (cordon_node c node)
  unfolding cordon_node
  cordon_node-Keeps node w p = grind (arith, a.updates)

  pub uncordon_node-Keeps : (name : String) → Keeps P (uncordon_node c name)
  unfolding uncordon_node
  uncordon_node-Keeps name w p = grind (arith, a.reads, a.updates)

  taint_node-Keeps :
      (node : Node) (key value effect : String) → Keeps P (taint_node c node key value effect)
  unfolding taint_node
  taint_node-Keeps node key value effect w p = grind (arith, a.updates)

  pub untaint_node-Keeps : (name key effect : String) → Keeps P (untaint_node c name key effect)
  unfolding untaint_node
  untaint_node-Keeps name key effect w p = grind (arith, a.reads, a.updates)

  evict_pods-Keeps : (pods : List Pod) → Keeps P (evict_pods c pods)
  unfolding evict_pods
  evict_pods-Keeps [] w p = p
  evict_pods-Keeps (pod ∷ pods) w p =
      if-Keeps P (is_skipped pod) _ _ (λ b. evict_pods-Keeps pods)
        (λ b v q. evict_pods-Keeps pods _ (a.evicts pod b v q)) w p

  drain_node-Keeps : (node : Node) → Keeps P (drain_node c node)
  unfolding drain_node
  drain_node-Keeps node w p = grind (arith, a.lists_pods, evict_pods-Keeps)

module _ {W : Type 0} (r : Reconciler W) (P : W → Type 0) (q : Quiet r.client P)
    (a : NodeAttacks r.client P) (exp : ChaosExperiment) where
  drain_one-Keeps : (node : Node) (p : Progress) → Keeps P (drain_one r exp node p)
  unfolding drain_one
  drain_one-Keeps node progress w p =
      grind (arith, cordon_node-Keeps r.client P a, drain_node-Keeps r.client P a, q.event)

  taint_one-Keeps : (node : Node) (p : Progress) → Keeps P (taint_one r exp node p)
  unfolding taint_one
  taint_one-Keeps node progress w p = grind (arith, taint_node-Keeps r.client P a, q.event)

  visit_nodes-Keeps :
      (visit : Node → Progress → M W Progress) (nodes : List Node) (progress : Progress)
      → ((node : Node) (p : Progress) → Keeps P (visit node p))
      → Keeps P (visit_nodes r visit nodes progress)
  unfolding visit_nodes
  visit_nodes-Keeps visit [] progress k w p = p
  visit_nodes-Keeps visit (n ∷ ns) progress k w p =
      visit_nodes-Keeps visit ns (visit n progress w).0 k _ (k n progress w p)

  pub drains-Keeps : (nodes : List Node) → Keeps P (choose_and_visit r exp (drain_one r exp) nodes)
  unfolding choose_and_visit
  drains-Keeps nodes = search (a.shuffles, visit_nodes-Keeps, drain_one-Keeps)

  pub taints-Keeps : (nodes : List Node) → Keeps P (choose_and_visit r exp (taint_one r exp) nodes)
  unfolding choose_and_visit
  taints-Keeps nodes = search (a.shuffles, visit_nodes-Keeps, taint_one-Keeps)

  pub deploy_each-Keeps :
      (deploy_on : Node → M W (Result String)) (reason : String) (text : String → Message)
      (nodes : List Node)
      → ((node : Node) → Keeps P (deploy_on node))
      → Keeps P (deploy_each r deploy_on reason text nodes)
  unfolding deploy_each
  deploy_each-Keeps deploy_on reason text [] k w p = p
  deploy_each-Keeps deploy_on reason text (n ∷ ns) k w p =
      let ih = deploy_each-Keeps deploy_on reason text ns k in grind (arith, k n w p, q.event, ih)

  pub deploy_node_cpu_stress_pod-Keeps :
      (name : String) (workers seconds : ℕ)
      → Keeps P (deploy_node_cpu_stress_pod r exp name workers seconds)
  unfolding deploy_node_cpu_stress_pod
  deploy_node_cpu_stress_pod-Keeps name workers seconds w p = grind (arith, q.now, a.creates)

  pub deploy_node_disk_fill_pod-Keeps :
      (name : String) (percentage : ℕ) (path : String) (seconds : ℕ)
      → Keeps P (deploy_node_disk_fill_pod r exp name percentage path seconds)
  unfolding deploy_node_disk_fill_pod
  deploy_node_disk_fill_pod-Keeps name percentage path seconds w p = grind (arith, q.now, a.creates)
