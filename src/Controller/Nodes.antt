-- ===== src/Controller/Nodes.antt =====
-- internal/controller/chaosexperiment_controller.go: cordoning, tainting and draining of nodes.
pub mod Restore
pub mod Eviction
use k8s_chaos.Prelude.{
  String, List, [], ◌∷◌, ◌++◌, Bool, true, false, ◌&&◌, ◌||◌, not, any, select, ◌==◌, if◌then◌else◌,
}
use k8s_chaos.Go.{Result, ok, err, errorf, wrapf, str, end, is_not_found}
use k8s_chaos.Api.{Node, Taint, Pod}
use k8s_chaos.Client.{M, ◌>>=◌, ◌>>◌, return, Client}
use k8s_chaos.Controller.Targets.{is_daemon_set_pod, is_static_pod, is_some}

-- `t.Key == key && t.Effect == taintEffect`.
abbrev pub has_taint : String → String → Taint → Bool
has_taint key effect t = t.key == key && t.effect == effect

-- Whether `drainNode` passes a pod over.
unfoldable pub is_skipped : Pod → Bool
unfolding is_daemon_set_pod is_static_pod
is_skipped pod =
    is_some pod.deletion_timestamp
    || (pod.phase == "Succeeded" || pod.phase == "Failed")
    || is_daemon_set_pod pod
    || is_static_pod pod

abbrev wrap_error : String → Result (Unit {0}) → Result (Unit {0})
wrap_error format (ok u) = ok u
wrap_error format (err e) = err (wrapf format end e)

module _ {W : Type 0} (c : Client W) where
  open c use {list_pods_on_node, evict_pod, get_node, update_node}

  -- The result tells whether the node was cordoned already.
  unfoldable pub cordon_node : Node → M W (Result Bool)
  cordon_node node = if node.unschedulable then return (ok true) else do
    updated ← update_node (record node { unschedulable = true })
    elim updated [
      | err e ↦ return (err (wrapf "failed to cordon node: %w" end e))
      | ok _ ↦ return (ok false)
    ]

  unfoldable pub uncordon_node : String → M W (Result (Unit {0}))
  uncordon_node name = do
    found ← get_node name
    elim found [
      | err e ↦ return (err (wrapf "failed to get node: %w" end e))
      | ok node ↦ if not node.unschedulable then return (ok tt) else do
        updated ← update_node (record node { unschedulable = false })
        return (wrap_error "failed to uncordon node: %w" updated)
    ]

  -- The result tells whether the node had the taint already.
  unfoldable pub taint_node : Node → String → String → String → M W (Result Bool)
  taint_node node key value effect =
      if any (has_taint key effect) node.taints then return (ok true) else do
        let taint : Taint = record { key = key; value = value; effect = effect }
        updated ← update_node (record node { taints = node.taints ++ taint ∷ [] })
        elim updated [
          | err e ↦ return (err (wrapf "failed to taint node: %w" end e))
          | ok _ ↦ return (ok false)
        ]

  unfoldable pub untaint_node : String → String → String → M W (Result (Unit {0}))
  untaint_node name key effect =
      if name == "" then return (err (errorf "node name cannot be empty" end)) else do
        found ← get_node name
        elim found [
          | err e ↦
              if is_not_found e
              then return (ok tt)
              else return (err (wrapf "failed to get node %s: %w" (str name end) e))
          | ok node ↦ if not (any (has_taint key effect) node.taints) then return (ok tt) else do
            let kept = select (λ t. not (has_taint key effect t)) node.taints
            updated ← update_node (record node { taints = kept })
            elim updated [
              | err e ↦ return (err (wrapf "failed to untaint node %s: %w" (str name end) e))
              | ok _ ↦ return (ok tt)
            ]
        ]

  -- The eviction loop: a failed eviction is logged, and the loop goes on.
  unfoldable pub evict_pods : List Pod → M W (Unit {0})
  unfolding is_skipped
  evict_pods [] = return tt
  evict_pods (pod ∷ pods) =
      let rest = evict_pods pods in if is_skipped pod then rest else do evict_pod pod 30; rest

  unfoldable pub drain_node : Node → M W (Result (Unit {0}))
  unfolding evict_pods
  drain_node node = do
    listed ← list_pods_on_node node.name
    elim listed [
      | err e ↦ return (err (wrapf "failed to list pods on node: %w" end e))
      | ok pods ↦ do evict_pods pods; return (ok tt)
    ]
