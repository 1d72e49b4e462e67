-- ===== src/Api/Spec.antt =====
-- api/v1alpha1/chaosexperiment_types.go: the desired state of an experiment. `maxRetries` is a natural
-- number, as the schema's `Minimum=0` says; the other `int` fields are tested against 0 by the code.
use k8s_chaos.Prelude.{ℕ, ℤ, String, Bool, List}

pub record TimeWindow : Type 0 where
  pub window_type : String
  pub start : String
  pub finish : String
  pub timezone : String
  pub days_of_week : List String

pub record ChaosExperimentSpec : Type 0 where
  pub action : String
  pub namespace : String
  pub selector : List (String × String)
  pub count : ℤ
  pub duration : String
  pub experiment_duration : String
  pub max_retries : ℕ
  pub retry_backoff : String
  pub retry_delay : String
  pub cpu_load : ℤ
  pub cpu_workers : ℤ
  pub memory_size : String
  pub memory_workers : ℤ
  pub loss_percentage : ℤ
  pub loss_correlation : ℤ
  pub corruption_percentage : ℤ
  pub corruption_correlation : ℤ
  pub fill_percentage : ℤ
  pub target_path : String
  pub volume_name : String
  pub direction : String
  pub target_ips : List String
  pub target_cidrs : List String
  pub target_ports : List ℤ
  pub target_protocols : List String
  pub dry_run : Bool
  pub paused : Bool
  pub max_percentage : ℤ
  pub allow_production : Bool
  pub schedule : String
  pub depends_on : List String
  pub time_windows : List TimeWindow
  pub maintenance_windows : List TimeWindow
  pub restart_interval : String
  pub taint_key : String
  pub taint_value : String
  pub taint_effect : String

abbrev pub time_window_recurring : String
time_window_recurring = "Recurring"

abbrev pub time_window_absolute : String
time_window_absolute = "Absolute"

abbrev pub exclusion_label : String
exclusion_label = "chaos.gushchin.dev/exclude"

abbrev pub production_annotation : String
production_annotation = "chaos.gushchin.dev/production"

abbrev pub production_label : String
production_label = "environment"

abbrev pub production_label_value : String
production_label_value = "production"
