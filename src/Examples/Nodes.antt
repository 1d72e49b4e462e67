-- ===== src/Examples/Nodes.antt =====
-- The theorem on the nodes of a completed experiment at a concrete input.
use k8s_chaos.Prelude.{
  ◌≡◌, refl, ap, inl, inr, String, List, [], ◌∷◌, true, Option, none, some, All, Bool-cases, arith,
  eq_iff, ◌==◌, if◌then◌else◌,
}
use k8s_chaos.Go.{GoError, api, not_found}
use k8s_chaos.Api.{ChaosExperiment, Node}
use k8s_chaos.Controller.Lifecycle.{complete_experiment}
use k8s_chaos.Controller.Lifecycle.Undone.{HoldsNodes, answer}
use k8s_chaos.Controller.Lifecycle.Undone.Completed.{
  recorded, is_restored, complete_experiment-restores,
}
use k8s_chaos.Examples.World.{World, kube, experiment, spec, cluster, node, find_node}

abbrev lookup : String → List Node → Option Node
lookup name [] = none
lookup name (n ∷ ns) = let rest = lookup name ns in if n.name == name then some n else rest

abbrev gone : GoError
gone = api not_found "nodes not found"

find_node-lookup :
    (name : String) (ns : List Node) → find_node name ns ≡ answer gone (lookup name ns)
find_node-lookup name [] = refl
find_node-lookup name (n ∷ ns) = elim (Bool-cases (n.name == name)) [
  | inl e ↦ rw e refl
  | inr e ↦ rw e (find_node-lookup name ns)
]

lookup-named : (name : String) (n : Node) (ns : List Node) → lookup name ns ≡ some n → n.name ≡ name
lookup-named name n [] h = ground (arith, h)
lookup-named name n (m ∷ ns) h = elim (Bool-cases (m.name == name)) [
  | inl e ↦ let same = (eq_iff m.name name).0 e in ground (arith, h, e, same)
  | inr e ↦ lookup-named name n ns (ground (arith, h, e))
]

abbrev held : String → World → Option Node
held name w = lookup name w.nodes

holds : HoldsNodes kube held
holds = record {
  missing = gone;
  named = λ name n w h. lookup-named name n w.nodes h;
  reads = λ name w. ap (λ r. (r, w)) (find_node-lookup name w.nodes);
  stores = λ n name w. refl;
  ticks = λ name w. refl;
  reports = λ exp name w. refl;
}

-- A drain of the node, which the status records, in an environment where the node is cordoned.
abbrev drain : ChaosExperiment
drain = record experiment {
  spec = record spec { action = "node-drain" };
  status = record (experiment.status) { cordoned_nodes = "worker" ∷ [] };
}

abbrev cordoned : World
cordoned = record cluster { nodes = record node { unschedulable = true } ∷ [] }

complete_experiment-restores_example :
    All
      (λ n. is_restored drain (held n (complete_experiment kube drain 60 cordoned).1) ≡ true)
      (recorded drain)
    × (recorded (complete_experiment kube drain 60 cordoned).0.1 ≡ [])
complete_experiment-restores_example =
    complete_experiment-restores kube held holds drain 60 cordoned (inl refl) tt
