-- ===== src/Api/Status.antt =====
-- api/v1alpha1/chaosexperiment_types.go and chaosexperimenthistory_types.go: the observed state of an
-- experiment, and the record of an execution. A time is the number of nanoseconds since Go's zero
-- time; a `*metav1.Time` is an `Option`.
use k8s_chaos.Prelude.{ℕ, String, Bool, List, Option}
use k8s_chaos.Go.{Message}
use k8s_chaos.Api.Spec.{ChaosExperimentSpec}

pub record Condition : Type 0 where
  pub condition_type : String
  pub condition_status : Bool
  pub observed_generation : ℕ
  pub last_transition_time : ℕ
  pub reason : String
  pub message : Message

pub record ChaosExperimentStatus : Type 0 where
  pub last_run_time : Option ℕ
  pub message : Message
  pub phase : String
  pub retry_count : ℕ
  pub last_error : Message
  pub next_retry_time : Option ℕ
  pub start_time : Option ℕ
  pub completed_at : Option ℕ
  pub last_scheduled_time : Option ℕ
  pub next_scheduled_time : Option ℕ
  pub cordoned_nodes : List String
  pub tainted_nodes : List String
  pub conditions : List Condition
  pub affected_pods : List String

pub record ChaosExperiment : Type 0 where
  pub name : String
  pub namespace : String
  pub uid : String
  pub generation : ℕ
  pub creation_timestamp : ℕ
  pub spec : ChaosExperimentSpec
  pub status : ChaosExperimentStatus

pub record ObjectReference : Type 0 where
  pub name : String
  pub namespace : String
  pub uid : String

pub record ExecutionDetails : Type 0 where
  pub start_time : ℕ
  pub end_time : Option ℕ
  pub duration : ℕ
  pub status : String
  pub message : Message
  pub phase : String

pub record ResourceReference : Type 0 where
  pub kind : String
  pub name : String
  pub namespace : String
  pub action : String
  pub details : String

pub record AuditMetadata : Type 0 where
  pub initiated_by : String
  pub scheduled_execution : Bool
  pub dry_run : Bool
  pub retry_count : ℕ
  pub creation_timestamp : ℕ

pub record ErrorDetails : Type 0 where
  pub message : Message
  pub code : String
  pub last_error : Message
  pub failure_reason : String

pub record ChaosExperimentHistory : Type 0 where
  pub name : String
  pub namespace : String
  pub labels : List (String × String)
  pub creation_timestamp : ℕ
  pub experiment_ref : ObjectReference
  pub experiment_spec : ChaosExperimentSpec
  pub execution : ExecutionDetails
  pub affected_resources : List ResourceReference
  pub audit : AuditMetadata
  pub error_details : Option ErrorDetails
