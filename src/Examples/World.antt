-- ===== src/Examples/World.antt =====
-- An environment to run the controller in: a store in memory, and a clock that only pauses advance.
use k8s_chaos.Prelude.{
  ℕ, pos, ◌+◌, ◌*◌, ◌/◌, String, List, [], ◌∷◌, false, none, if◌then◌else◌, ◌==◌, to_ℕ,
}
use k8s_chaos.Go.{lit, fmt, errorf, end, Result, ok, err, api, not_found, conflict}
use k8s_chaos.Api.{
  ChaosExperiment, ChaosExperimentSpec, ChaosExperimentStatus, ChaosExperimentHistory, Pod, Node,
}
use k8s_chaos.Client.{Client}
use k8s_chaos.Windows.Calendar.{Calendar, monday, day_length, clock_length}
use k8s_chaos.History.Retention.{default_history_config}
use k8s_chaos.Controller.Handlers.Common.{Reconciler}

-- `deleted` holds the pods that were deleted, `calls` counts the updates of ephemeral containers.
pub record World : Type 0 where
  pub time : ℕ
  pub pods : List Pod
  pub nodes : List Node
  pub experiments : List ChaosExperiment
  pub records : List ChaosExperimentHistory
  pub deleted : List Pod
  pub calls : ℕ

abbrev pub find_node : String → List Node → Result Node
find_node name [] = err (api not_found "nodes not found")
find_node name (n ∷ ns) = let rest = find_node name ns in if n.name == name then ok n else rest

abbrev pub find_experiment : String → List ChaosExperiment → Result ChaosExperiment
find_experiment name [] = err (api not_found "experiments not found")
find_experiment name (e ∷ es) =
    let rest = find_experiment name es in if e.name == name then ok e else rest

abbrev pub done_well : World → Result (Unit {0}) × World
done_well w = (ok tt, w)

abbrev pub kube : Client World
kube = record {
  now = λ w. (w.time, w);
  sleep = λ n w. (tt, record w { time = w.time + n });
  wait = λ n w. done_well (record w { time = w.time + n });
  shuffle = λ pods w. (pods, w);
  shuffle_nodes = λ nodes w. (nodes, w);
  spawn = λ t w. (tt, w);
  event = λ t r m w. (tt, w);
  metric = λ name labels n w. (tt, w);
  track = λ action up w. (tt, w);
  get_experiment = λ namespace name w. (find_experiment name w.experiments, w);
  update_status = λ exp w. done_well (record w { experiments = exp ∷ w.experiments });
  get_namespace = λ name w. (ok (record { name = name; labels = []; annotations = [] }), w);
  list_pods = λ namespace selector w. (ok w.pods, w);
  list_pods_on_node = λ name w. (ok w.pods, w);
  get_pod = λ namespace name w.
      (elim w.pods [ [] ↦ err (api not_found "pods not found") | p ∷ ps ↦ ok p ], w);
  create_pod = λ pod w. done_well w;
  delete_pod = λ pod w. done_well (record w { deleted = pod ∷ w.deleted });
  evict_pod = λ pod grace w. done_well (record w { deleted = pod ∷ w.deleted });
  update_ephemeral_containers = λ pod w.
      (err (api conflict "Operation cannot be fulfilled"), record w { calls = w.calls + 1 });
  exec_in_pod = λ namespace pod container command w. (ok tt, w);
  list_nodes = λ selector w. (ok w.nodes, w);
  get_node = λ name w. (find_node name w.nodes, w);
  update_node = λ node w. done_well (record w { nodes = node ∷ w.nodes });
  create_history = λ r w. done_well (record w { records = r ∷ w.records });
  list_history = λ namespace name w. (ok w.records, w);
  delete_history = λ r w. (ok tt, w);
}

abbrev pub reconciler : Reconciler World
reconciler = record {
  client = kube;
  history_config = default_history_config;
  formats = record {
    timestamp = λ t. "20260101-000000";
    unix_nano = λ t. t;
    hex = λ n. "0";
    dashed = λ a b c. a;
  };
  sprintf = λ m. elim m [ lit s ↦ s | fmt f a ↦ f ];
  recovered = errorf "panic: %v [recovered]" end;
}

-- Days in UTC, all of them Mondays, and the hours that the examples write.
abbrev pub calendar : Calendar (Unit {0})
calendar = record {
  utc = tt;
  load_location = λ name. none;
  parse_rfc3339 = λ text. none;
  weekday = λ loc t day. monday;
  on_day = λ loc t day hour minute.
      (t / day_length + day) * day_length + clock_length (to_ℕ hour) (to_ℕ minute);
  scan_int = λ text. if text == "22" then pos 22 else if text == "02" then pos 2 else pos 0;
  to_lower = λ text. text;
}

abbrev pub spec : ChaosExperimentSpec
spec = record {
  action = "pod-kill";
  namespace = "default";
  selector = ("app", "web") ∷ [];
  count = pos 2;
  duration = "";
  experiment_duration = "";
  max_retries = 3;
  retry_backoff = "exponential";
  retry_delay = "30s";
  cpu_load = pos 0;
  cpu_workers = pos 0;
  memory_size = "";
  memory_workers = pos 0;
  loss_percentage = pos 0;
  loss_correlation = pos 0;
  corruption_percentage = pos 0;
  corruption_correlation = pos 0;
  fill_percentage = pos 0;
  target_path = "";
  volume_name = "";
  direction = "";
  target_ips = [];
  target_cidrs = [];
  target_ports = [];
  target_protocols = [];
  dry_run = false;
  paused = false;
  max_percentage = pos 0;
  allow_production = false;
  schedule = "";
  depends_on = "warmup" ∷ [];
  time_windows = [];
  maintenance_windows = [];
  restart_interval = "";
  taint_key = "";
  taint_value = "";
  taint_effect = "";
}

abbrev pub status : ChaosExperimentStatus
status = record {
  last_run_time = none;
  message = lit "";
  phase = "Running";
  retry_count = 0;
  last_error = lit "";
  next_retry_time = none;
  start_time = none;
  completed_at = none;
  last_scheduled_time = none;
  next_scheduled_time = none;
  cordoned_nodes = [];
  tainted_nodes = [];
  conditions = [];
  affected_pods = [];
}

abbrev pub experiment : ChaosExperiment
experiment = record {
  name = "kill-web";
  namespace = "default";
  uid = "1";
  generation = 1;
  creation_timestamp = 0;
  spec = spec;
  status = status;
}

abbrev pub warmup : ChaosExperiment
warmup = record experiment { name = "warmup"; status = record status { phase = "Completed" } }

abbrev pub pod : String → List (String × String) → Pod
pod name labels = record {
  name = name;
  namespace = "default";
  labels = labels;
  annotations = [];
  owner_references = [];
  deletion_timestamp = none;
  phase = "Running";
  containers = record { name = "main"; volume_mounts = [] } ∷ [];
  init_containers = [];
  ephemeral_containers = [];
  container_statuses = [];
  ephemeral_container_statuses = [];
}

abbrev pub web : Pod
web = pod "web-1" []

abbrev pub excluded : Pod
excluded = pod "db-1" (("chaos.gushchin.dev/exclude", "true") ∷ [])

abbrev pub node : Node
node = record { name = "worker"; unschedulable = false; taints = [] }

abbrev pub cluster : World
cluster = record {
  time = 1000000000;
  pods = web ∷ excluded ∷ [];
  nodes = node ∷ [];
  experiments = experiment ∷ warmup ∷ [];
  records = [];
  deleted = [];
  calls = 0;
}
