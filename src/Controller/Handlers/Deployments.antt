-- ===== src/Controller/Handlers/Deployments.antt =====
-- internal/controller/chaosexperiment_controller.go: `deployNodeCPUStressPod` and
-- `deployNodeDiskFillPod`.
use k8s_chaos.Prelude.{ℕ, String, List, [], ◌∷◌, none, some, true, false, ◌==◌, if◌then◌else◌}
use k8s_chaos.Go.{lit, fmt, Result, ok, err, wrapf, str, int, num, end}
use k8s_chaos.Api.{ChaosExperiment, HostPod}
use k8s_chaos.Client.{M, ◌>>=◌, return}
use k8s_chaos.Controller.Handlers.Common.{Reconciler}
use k8s_chaos.Controller.Handlers.Containers.{unix_seconds}
use k8s_chaos.Controller.Handlers.Scripts.{node_fill_script}

abbrev labels_of : ChaosExperiment → String → List (String × String)
labels_of exp action =
    ("chaos.gushchin.dev/experiment", exp.name) ∷ ("chaos.gushchin.dev/action", action) ∷ []

abbrev namespace_of : ChaosExperiment → String
namespace_of exp = if exp.namespace == "" then "default" else exp.namespace

-- The pod of `deployNodeCPUStressPod`.
unfoldable pub cpu_stress_pod :
    ChaosExperiment → String → (node : String) → (workers seconds : ℕ) → HostPod
cpu_stress_pod exp name node workers seconds = record {
  name = name;
  namespace = namespace_of exp;
  labels = labels_of exp "node-cpu-stress";
  node_name = node;
  restart_policy = "Never";
  shares_host = true;
  tolerates_all = true;
  host_path = none;
  volume_mounts = [];
  container_name = "stress-ng";
  image = "alexeiled/stress-ng:latest-alpine";
  command =
      lit "stress-ng"
      ∷ lit "--cpu"
      ∷ fmt "%d" (num workers end)
      ∷ lit "--cpu-load"
      ∷ fmt "%d" (int exp.spec.cpu_load end)
      ∷ lit "--timeout"
      ∷ fmt "%ds" (num seconds end)
      ∷ lit "--metrics-brief"
      ∷ [];
  privileged = true;
  cpu = some (workers, "100m");
}

-- The pod of `deployNodeDiskFillPod`: the target path of the node is mounted in it.
unfoldable pub disk_fill_pod :
    ChaosExperiment → String → (node : String) → ℕ → (path : String) → ℕ → HostPod
disk_fill_pod exp name node percentage path seconds = record {
  name = name;
  namespace = namespace_of exp;
  labels = labels_of exp "node-disk-fill";
  node_name = node;
  restart_policy = "Never";
  shares_host = false;
  tolerates_all = true;
  host_path = some path;
  volume_mounts = record { name = "fill-target"; mount_path = "/fill-target" } ∷ [];
  container_name = "disk-fill";
  image = "busybox:1.36";
  command = lit "/bin/sh" ∷ lit "-c" ∷ fmt node_fill_script (num percentage (num seconds end)) ∷ [];
  privileged = true;
  cpu = none;
}

module _ {W : Type 0} (r : Reconciler W) where
  open r.client use {now, create_pod}

  -- The pod gets its name, with the time in it, and is created; the name is returned.
  deploy :
      ChaosExperiment
      → (format failure : String) → (String → HostPod)
      → (node : String) → M W (Result String)
  deploy exp format failure pod_of node = do
    t ← now
    let name = r.sprintf (fmt format (str exp.name (num (unix_seconds t) end)))
    created ← create_pod (pod_of name)
    elim created [ err e ↦ return (err (wrapf failure (str node end) e)) | ok _ ↦ return (ok name) ]

  unfoldable pub deploy_node_cpu_stress_pod :
      ChaosExperiment → (node : String) → (workers seconds : ℕ) → M W (Result String)
  unfolding deploy cpu_stress_pod unix_seconds
  deploy_node_cpu_stress_pod exp node workers seconds =
      deploy exp "chaos-node-cpu-stress-%s-%d" "failed to create stress pod on node %s: %w"
        (λ name. cpu_stress_pod exp name node workers seconds) node

  unfoldable pub deploy_node_disk_fill_pod :
      ChaosExperiment → (node : String) → ℕ → (path : String) → ℕ → M W (Result String)
  unfolding deploy disk_fill_pod unix_seconds
  deploy_node_disk_fill_pod exp node percentage path seconds =
      deploy exp "chaos-node-disk-fill-%s-%d" "failed to create disk fill pod on node %s: %w"
        (λ name. disk_fill_pod exp name node percentage path seconds) node
