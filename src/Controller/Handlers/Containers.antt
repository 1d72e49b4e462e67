-- ===== src/Controller/Handlers/Containers.antt =====
-- internal/controller/chaosexperiment_controller.go: the functions that inject a container into a pod,
-- and those that run a command in one.
use k8s_chaos.Prelude.{
  ℕ, ◌-◌, ◌/◌, ℤ, is_nonpos, to_ℕ, String, List, [], ◌∷◌, Bool, ◌&&◌, none, some, any,
  if◌then◌else◌,
}
use k8s_chaos.Go.{Message, lit, fmt, Result, ok, err, errorf, wrapf, str, int, num, end}
use k8s_chaos.Api.{Pod, Container, EphemeralContainer}
use k8s_chaos.Client.{M, ◌>>=◌, ◌>>◌, return}
use k8s_chaos.Durations.Parse.{second}
use k8s_chaos.Controller.Errors.{strip_prefix}
use k8s_chaos.Controller.Targets.{is_some}
use k8s_chaos.Controller.Ephemeral.{
  is_ephemeral_container_running, update_pod_with_ephemeral_container,
}
use k8s_chaos.Controller.Handlers.Common.{Reconciler}
use k8s_chaos.Controller.Handlers.Scripts.{pod_fill_script, partition_script}

-- `t.Unix()`, for a time that is not before 1970.
unfoldable pub unix_seconds : ℕ → ℕ
unix_seconds t = t / second - 62135596800

-- `if n <= 0 { n = default }`.
unfoldable pub positive_or : ℕ → ℤ → ℕ
positive_or default n = if is_nonpos n then default else to_ℕ n

abbrev shell : Message → List Message
shell command = lit "/bin/sh" ∷ lit "-c" ∷ command ∷ []

-- A container of the family runs in the pod.
unfoldable pub is_busy : String → Pod → Bool
unfolding strip_prefix is_ephemeral_container_running
is_busy family pod =
    any
      (λ (k : EphemeralContainer).
        is_some (strip_prefix family k.name)
        && is_ephemeral_container_running pod.ephemeral_container_statuses k.name)
      pod.ephemeral_containers

-- `sleep` behind a rule of `tc netem`, with a correlation where one is given.
unfoldable pub netem_command :
    (plain correlated : String) → (percentage correlation : ℤ) → ℕ → Message
netem_command plain correlated percentage correlation seconds =
    if is_nonpos correlation
    then fmt plain (int percentage (num seconds end))
    else fmt correlated (int percentage (int correlation (num seconds end)))

module _ {W : Type 0} (r : Reconciler W) where
  open r.client use {now, get_pod, exec_in_pod}

  -- `fmt.Sprintf(format, time.Now().Unix())`.
  unfoldable pub stamped : String → M W String
  unfolding unix_seconds
  stamped format = do t ← now; return (r.sprintf (fmt format (num (unix_seconds t) end)))

  -- The name of the container, if it was injected.
  unfoldable pub inject : Pod → EphemeralContainer → M W (Result String)
  inject pod container = do
    updated ← update_pod_with_ephemeral_container r.client r.sprintf pod container
    elim updated [ err e ↦ return (err e) | ok _ ↦ return (ok container.name) ]

  -- The name is empty where a container of the family still runs in the pod.
  unfoldable pub inject_unless_busy : String → Pod → EphemeralContainer → M W (Result String)
  unfolding is_busy inject
  inject_unless_busy family pod container = do
    found ← get_pod pod.namespace pod.name
    elim found [
      | err e ↦ return (err (wrapf "failed to get current pod state: %w" end e))
      | ok current ↦ if is_busy family current then return (ok "") else inject pod container
    ]

  unfoldable pub inject_cpu_stress_container : Pod → ℤ → (workers seconds : ℕ) → M W (Result String)
  unfolding stamped inject_unless_busy
  inject_cpu_stress_container pod cpu_load workers seconds = do
    name ← stamped "chaos-cpu-stress-%d"
    inject_unless_busy "chaos-cpu-stress" pod (record {
      name = name;
      image = "alexeiled/stress-ng:latest-alpine";
      command =
          lit "stress-ng"
          ∷ lit "--cpu"
          ∷ fmt "%d" (num workers end)
          ∷ lit "--cpu-load"
          ∷ fmt "%d" (int cpu_load end)
          ∷ lit "--timeout"
          ∷ fmt "%ds" (num seconds end)
          ∷ lit "--metrics-brief"
          ∷ [];
      capabilities = [];
      cpu = some (workers, "100m");
    })

  unfoldable pub inject_memory_stress_container : Pod → ℕ → String → ℕ → M W (Result String)
  unfolding stamped inject
  inject_memory_stress_container pod workers memory_size seconds = do
    name ← stamped "memory-stress-%d"
    inject pod (record {
      name = name;
      image = "ghcr.io/neogan74/stress-ng:latest";
      command = shell (
          fmt "stress-ng --vm %d --vm-bytes %s --timeout %ds --metrics-brief"
            (num workers (str memory_size (num seconds end))));
      capabilities = [];
      cpu = none;
    })

  -- The container of the two handlers that use `tc netem`.
  unfoldable pub inject_netem : String → Message → Pod → M W (Result String)
  unfolding stamped inject
  inject_netem format command pod = do
    name ← stamped format
    inject pod (record {
      name = name;
      image = "ghcr.io/neogan74/iproute2:latest";
      command = shell command;
      capabilities = "NET_ADMIN" ∷ [];
      cpu = none;
    })

  unfoldable pub inject_network_loss_container : Pod → ℤ → ℤ → ℕ → M W (Result String)
  unfolding inject_netem netem_command
  inject_network_loss_container pod percentage correlation seconds =
      inject_netem "network-loss-%d"
        (netem_command
          "tc qdisc add dev eth0 root netem loss %d%% && sleep %d && tc qdisc del dev eth0 root"
          "tc qdisc add dev eth0 root netem loss %d%% %d%% && sleep %d && tc qdisc del dev eth0 root"
          percentage correlation seconds)
        pod

  unfoldable pub inject_network_corruption_container : Pod → ℤ → ℤ → ℕ → M W (Result String)
  unfolding inject_netem netem_command
  inject_network_corruption_container pod percentage correlation seconds =
      inject_netem "network-corrupt-%d"
        (netem_command
          "tc qdisc add dev eth0 root netem corrupt %d%% && sleep %d && tc qdisc del dev eth0 root"
          "tc qdisc add dev eth0 root netem corrupt %d%% %d%% && sleep %d && tc qdisc del dev eth0 root"
          percentage correlation seconds)
        pod

  unfoldable pub inject_disk_fill_container : Pod → ℕ → String → ℕ → M W (Result String)
  unfolding stamped inject_unless_busy
  inject_disk_fill_container pod fill_percentage target_path seconds = do
    name ← stamped "disk-fill-%d"
    inject_unless_busy "disk-fill" pod (record {
      name = name;
      image = "busybox:1.36";
      command =
          shell (fmt pod_fill_script (str target_path (num fill_percentage (num seconds end))));
      capabilities = [];
      cpu = none;
    })

  -- The clock is read for the chain and once more for the container.
  unfoldable pub inject_network_partition_container : Pod → String → ℕ → M W (Result String)
  unfolding stamped inject partition_script
  inject_network_partition_container pod direction seconds = do
    chain ← stamped "CHAOS_PARTITION_%d"
    name ← stamped "network-partition-%d"
    inject pod (record {
      name = name;
      image = "nicolaka/netshoot";
      command = shell (partition_script chain direction seconds);
      capabilities = "NET_ADMIN" ∷ [];
      cpu = none;
    })

  -- A command in the first of the containers.
  unfoldable pub in_first :
      List Container → (String → M W (Result (Unit {0}))) → M W (Result (Unit {0}))
  in_first [] run = return (err (errorf "no containers found in pod" end))
  in_first (k ∷ ks) run = run k.name

  abbrev pub in_first_container : Pod → (String → M W (Result (Unit {0}))) → M W (Result (Unit {0}))
  in_first_container pod run = in_first pod.containers run

  -- An error of the first command is ignored: there may be no rule to delete.
  unfoldable pub apply_network_delay : Pod → ℕ → M W (Result (Unit {0}))
  unfolding in_first
  apply_network_delay pod delay_ms = in_first_container pod (λ name. do
    exec_in_pod pod.namespace pod.name name ("tc" ∷ "qdisc" ∷ "del" ∷ "dev" ∷ "eth0" ∷ "root" ∷ [])
    exec_in_pod pod.namespace pod.name name (
        "tc"
        ∷ "qdisc"
        ∷ "add"
        ∷ "dev"
        ∷ "eth0"
        ∷ "root"
        ∷ "netem"
        ∷ "delay"
        ∷ r.sprintf (fmt "%dms" (num delay_ms end))
        ∷ []))

  unfoldable pub gracefully_restart_container : Pod → M W (Result (Unit {0}))
  unfolding in_first
  gracefully_restart_container pod = in_first_container pod (λ name.
      exec_in_pod pod.namespace pod.name name
        ("/bin/sh" ∷ "-c" ∷ "kill -15 1 || kill -TERM 1" ∷ []))
