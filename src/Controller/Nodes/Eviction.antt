-- ===== src/Controller/Nodes/Eviction.antt =====
-- internal/controller/chaosexperiment_controller.go, `drainNode`: which pods it evicts.
use k8s_chaos.Prelude.{
  ◌≡◌, ◌≢◌, refl, String, List, [], ◌∷◌, All, false, none, any, inl, inr, Bool-cases, arith, eq_iff,
  ◌==◌,
}
use k8s_chaos.Go.{ok}
use k8s_chaos.Api.{Node, Pod, OwnerReference, lookup}
use k8s_chaos.Client.{Client}
use k8s_chaos.Controller.Targets.{is_daemon_set_pod, is_static_pod}
use k8s_chaos.Controller.Nodes.{is_skipped, evict_pods, drain_node}

-- A pod that a drain is to evict: it is neither being deleted nor finished, no DaemonSet owns it, and it
-- is no static pod, which a node owns or whose configuration has a source.
pub record IsEvictable (pod : Pod) : Type 0 where
  pub not_deleted : pod.deletion_timestamp ≡ none
  pub not_succeeded : pod.phase ≢ "Succeeded"
  pub not_failed : pod.phase ≢ "Failed"
  pub no_daemon_set : All (λ (o : OwnerReference). o.kind ≢ "DaemonSet") pod.owner_references
  pub no_node : All (λ (o : OwnerReference). o.kind ≢ "Node") pod.owner_references
  pub no_source : lookup "kubernetes.io/config.source" pod.annotations ≡ none

not_same : (a b : String) → a == b ≡ false → a ≢ b
not_same a b h q = let e = (eq_iff a b).1 q in ground (arith, e, h)

same-not : (a b : String) → a ≢ b → a == b ≡ false
same-not a b h = elim (Bool-cases (a == b)) [ inl e ↦ absurd (h ((eq_iff a b).0 e)) | inr e ↦ e ]

kinds-not :
    (k : String) (owners : List OwnerReference)
    → any (λ (o : OwnerReference). o.kind == k) owners ≡ false
    → All (λ (o : OwnerReference). o.kind ≢ k) owners
kinds-not k [] h = tt
kinds-not k (o ∷ os) h = (not_same o.kind k (ground (arith, h)), kinds-not k os (ground (arith, h)))

not-kinds :
    (k : String) (owners : List OwnerReference)
    → All (λ (o : OwnerReference). o.kind ≢ k) owners
    → any (λ (o : OwnerReference). o.kind == k) owners ≡ false
not-kinds k [] h = refl
not-kinds k (o ∷ os) (h, hs) = rw (same-not o.kind k h) (not-kinds k os hs)

is_skipped-IsEvictable : (pod : Pod) → is_skipped pod ≡ false → IsEvictable pod
unfolding is_skipped is_daemon_set_pod is_static_pod
is_skipped-IsEvictable pod h = record {
  not_deleted = ground (arith, h);
  not_succeeded = not_same pod.phase "Succeeded" (ground (arith, h));
  not_failed = not_same pod.phase "Failed" (ground (arith, h));
  no_daemon_set = kinds-not "DaemonSet" pod.owner_references (ground (arith, h));
  no_node = kinds-not "Node" pod.owner_references (ground (arith, h));
  no_source = ground (arith, h);
}

IsEvictable-is_skipped : (pod : Pod) → IsEvictable pod → is_skipped pod ≡ false
unfolding is_skipped is_daemon_set_pod is_static_pod
IsEvictable-is_skipped pod e =
    let s = same-not pod.phase "Succeeded" e.not_succeeded in
    let f = same-not pod.phase "Failed" e.not_failed in
    let d = not-kinds "DaemonSet" pod.owner_references e.no_daemon_set in
    let n = not-kinds "Node" pod.owner_references e.no_node in
    rw (e.not_deleted, s, f, d, n, e.no_source) refl

-- The environment that the evictions of the evictable ones among the pods lead to, one after the other,
-- each with a grace period of 30 seconds, whatever they return.
pub data Evicts {W : Type 0} (c : Client W) : List Pod → W → W → Type 0 where
  no_more : {w : W} → Evicts c [] w w
  evicted :
      {pod : Pod} {pods : List Pod} {w w' : W}
      → IsEvictable pod
      → Evicts c pods (c.evict_pod pod 30 w).1 w'
      → Evicts c (pod ∷ pods) w w'
  passed_over :
      {pod : Pod} {pods : List Pod} {w w' : W}
      → ¬ IsEvictable pod
      → Evicts c pods w w'
      → Evicts c (pod ∷ pods) w w'

module _ {W : Type 0} (c : Client W) where
  open c use {list_pods_on_node, evict_pod}

  evict_pods-Evicts : (pods : List Pod) (w : W) → Evicts c pods w (evict_pods c pods w).1
  unfolding evict_pods
  evict_pods-Evicts [] w = no_more
  evict_pods-Evicts (pod ∷ pods) w = elim (Bool-cases (is_skipped pod)) [
    | inl e ↦ rw e (
        passed_over (λ h. let f = IsEvictable-is_skipped pod h in ground (arith, e, f))
          (evict_pods-Evicts pods w))
    | inr e ↦
        rw e
          (evicted (is_skipped-IsEvictable pod e) (evict_pods-Evicts pods (evict_pod pod 30 w).1))
  ]

  drain_node-evict_pods :
      (node : Node) (pods : List Pod) (w w' : W)
      → list_pods_on_node node.name w ≡ (ok pods, w')
      → (drain_node c node w).1 ≡ (evict_pods c pods w').1
  unfolding drain_node
  drain_node-evict_pods node pods w w' h = ground (arith, h)

  -- Where the pods of the node are listed, a drain evicts each that is evictable, in their order, and no
  -- other pod, and changes the environment in no other way, whatever the evictions return.
  pub drain_node-Evicts :
      (node : Node) (pods : List Pod) (w w' : W)
      → list_pods_on_node node.name w ≡ (ok pods, w')
      → Evicts c pods w' (drain_node c node w).1
  drain_node-Evicts node pods w w' h =
      rw (drain_node-evict_pods node pods w w' h) (evict_pods-Evicts pods w')
