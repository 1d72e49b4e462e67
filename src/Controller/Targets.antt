-- ===== src/Controller/Targets.antt =====
-- internal/controller/chaosexperiment_controller.go: which pods an experiment may touch.
pub mod Eligible
use k8s_chaos.Prelude.{
  ℕ, zero, suc, ◌+◌, String, List, [], ◌∷◌, Bool, true, false, Option, none, some, any, ltb, min,
  length, take, ◌==◌, if◌then◌else◌,
}
use k8s_chaos.Go.{Result, ok, err, errorf, wrapf, str, end}
use k8s_chaos.Api.{
  ChaosExperiment, ChaosExperimentSpec, Pod, Container, VolumeMount, OwnerReference,
  ContainerStatus, exclusion_label, lookup, has_entry,
}
use k8s_chaos.Client.{M, ◌>>=◌, ◌>>◌, return, Client}
use k8s_chaos.Webhook.Safety.{requested_count}

-- The results of the loop over the listed pods.
pub record Scan : Type 0 where
  pub eligible : List Pod
  pub by_namespace : ℕ
  pub by_label : ℕ
  pub by_terminating : ℕ

abbrev pub is_some {ℓ} : {A : Type ℓ} → Option A → Bool
is_some none = false
is_some (some a) = true

-- The loop, from its last pod to its first: each pod is kept or counted under one reason.
unfoldable pub scan_pods : Bool → List Pod → Scan
scan_pods namespace_excluded [] = record {
  eligible = [];
  by_namespace = 0;
  by_label = 0;
  by_terminating = 0;
}
scan_pods namespace_excluded (pod ∷ pods) =
    let s = scan_pods namespace_excluded pods in
    if namespace_excluded
    then record s { by_namespace = s.by_namespace + 1 }
    else if has_entry exclusion_label "true" pod.labels
    then record s { by_label = s.by_label + 1 }
    else if is_some pod.deletion_timestamp
    then record s { by_terminating = s.by_terminating + 1 }
    else record s { eligible = pod ∷ s.eligible }

-- The number of targets: `count`, at least 1 and at most the number of candidates.
unfoldable pub target_count {ℓ} : {A : Type ℓ} → ChaosExperimentSpec → List A → ℕ
unfolding requested_count
target_count spec xs = min (requested_count spec.count) (length xs)

module _ {W : Type 0} (c : Client W) where
  open c use {metric, get_namespace, list_pods}

  unfoldable pub count_excluded : ChaosExperimentSpec → String → ℕ → M W (Unit {0})
  count_excluded spec reason n =
      if ltb 0 n
      then metric "chaosexperiment_safety_excluded_resources_total"
          (spec.action ∷ spec.namespace ∷ reason ∷ []) n
      else return tt

  -- A namespace that cannot be read is not excluded.
  unfoldable pub namespace_is_excluded : String → M W Bool
  namespace_is_excluded name = do
    found ← get_namespace name
    elim found [
      | err _ ↦ return false
      | ok ns ↦ return (has_entry exclusion_label "true" ns.annotations)
    ]

  unfoldable pub get_eligible_pods : ChaosExperiment → M W (Result (List Pod))
  unfolding scan_pods count_excluded namespace_is_excluded
  get_eligible_pods exp =
      if exp.spec.namespace == "" then return (err (errorf "namespace not specified" end)) else do
        listed ← list_pods exp.spec.namespace exp.spec.selector
        elim listed [
          | err e ↦ return (err (wrapf "failed to list pods: %w" end e))
          | ok pods ↦ do
            excluded ← namespace_is_excluded exp.spec.namespace
            let s = scan_pods excluded pods
            count_excluded exp.spec "namespace" s.by_namespace
            count_excluded exp.spec "pod" s.by_label
            count_excluded exp.spec "terminating" s.by_terminating
            return (ok s.eligible)
        ]

unfoldable pub is_daemon_set_pod : Pod → Bool
is_daemon_set_pod pod =
    any (λ (owner : OwnerReference). owner.kind == "DaemonSet") pod.owner_references

unfoldable pub is_static_pod : Pod → Bool
is_static_pod pod =
    if any (λ (owner : OwnerReference). owner.kind == "Node") pod.owner_references
    then true
    else is_some (lookup "kubernetes.io/config.source" pod.annotations)

-- The first mount of a volume in a row of containers.
mount_in : String → List VolumeMount → Option String
mount_in volume [] = none
mount_in volume (m ∷ ms) =
    let rest = mount_in volume ms in if m.name == volume then some m.mount_path else rest

mount_path_in : String → List Container → Option String
unfolding mount_in
mount_path_in volume [] = none
mount_path_in volume (k ∷ ks) =
    let rest = mount_path_in volume ks in
    elim (mount_in volume k.volume_mounts) [ some path ↦ some path | none ↦ rest ]

unfoldable pub resolve_disk_fill_target : Pod → String → String → Result String
unfolding mount_path_in
resolve_disk_fill_target pod volume target =
    if volume == ""
    then (if target == "" then err (errorf "target path is empty" end) else ok target)
    else elim (mount_path_in volume pod.containers) [
      | some path ↦ ok path
      | none ↦ elim (mount_path_in volume pod.init_containers) [
        | some path ↦ ok path
        | none ↦ err (
            errorf "volume %q not found in pod %s/%s"
              (str volume (str pod.namespace (str pod.name end))))
      ]
    ]

find_status : String → List ContainerStatus → Option ContainerStatus
find_status name [] = none
find_status name (s ∷ ss) =
    let rest = find_status name ss in if s.name == name then some s else rest

unfoldable pub get_primary_container_restart_count : Pod → Result (String × ℕ)
unfolding find_status
get_primary_container_restart_count pod = elim pod.containers [
  | [] ↦ err (errorf "no containers found in pod" end)
  | k ∷ ks ↦ elim (find_status k.name pod.container_statuses) [
    | none ↦ err (errorf "container status not found for %q" (str k.name end))
    | some s ↦ ok (k.name, s.restart_count)
  ]
]
