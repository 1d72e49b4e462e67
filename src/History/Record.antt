-- ===== src/History/Record.antt =====
-- internal/controller/history.go: `createHistoryRecord` and the helpers that fill a record. The
-- formats of `time` and `fmt` that name a record are parameters.
use k8s_chaos.Prelude.{
  ℕ, ◌-◌, ◌%◌, String, List, [], ◌∷◌, not, Option, some, map, if◌then◌else◌, ◌==◌,
}
use k8s_chaos.Go.{Result, ok, err, wrapf, end}
use k8s_chaos.Api.{ChaosExperiment, ChaosExperimentHistory, ResourceReference, ErrorDetails}
use k8s_chaos.Client.{M, ◌>>=◌, ◌>>◌, return, Client, retention_cleanup, ttl_cleanup}
use k8s_chaos.History.Retention.{HistoryConfig}

pub record Formats : Type 0 where
  -- `t.Format("20060102-150405")`, `t.UnixNano()`, `fmt.Sprintf("%x", n)`, `fmt.Sprintf("%s-%s-%s", ...)`.
  pub timestamp : ℕ → String
  pub unix_nano : ℕ → ℕ
  pub hex : ℕ → String
  pub dashed : String → String → String → String

unfoldable pub build_resource_references :
    String → String → List String → String → List ResourceReference
build_resource_references action namespace names kind =
    map
      (λ name. record {
        kind = kind;
        name = name;
        namespace = namespace;
        action = action;
        details = "";
      })
      names

unfoldable pub get_initiator : String
get_initiator = "system:serviceaccount:chaos-system:chaos-controller"

-- `if historyNamespace == "" { historyNamespace = exp.Namespace }`.
unfoldable pub history_namespace : HistoryConfig → ChaosExperiment → String
history_namespace config exp = if config.namespace == "" then exp.namespace else config.namespace

unfoldable pub history_labels : ChaosExperiment → String → List (String × String)
history_labels exp status =
    ("chaos.gushchin.dev/experiment", exp.name)
    ∷ ("chaos.gushchin.dev/action", exp.spec.action)
    ∷ ("chaos.gushchin.dev/target-namespace", exp.spec.namespace)
    ∷ ("chaos.gushchin.dev/status", status)
    ∷ []

module _ {W : Type 0} (c : Client W) (f : Formats) where
  open c use {now, metric, spawn, create_history}

  unfoldable pub generate_short_uid : M W String
  generate_short_uid = do t ← now; return (f.hex (f.unix_nano t % 0xffffff))

  -- The record, with the times that the code reads one after the other.
  unfoldable pub history_record :
      HistoryConfig
      → ChaosExperiment
      → String
      → List ResourceReference
      → ℕ
      → Option ErrorDetails
      → String
      → ℕ
      → ℕ
      → ℕ
      → ChaosExperimentHistory
  unfolding history_namespace history_labels get_initiator
  history_record config exp status affected start details name ended since audited = record {
    name = name;
    namespace = history_namespace config exp;
    labels = history_labels exp status;
    creation_timestamp = 0;
    experiment_ref = record { name = exp.name; namespace = exp.namespace; uid = exp.uid };
    experiment_spec = exp.spec;
    execution = record {
      start_time = start;
      end_time = some ended;
      duration = since - start;
      status = status;
      message = exp.status.message;
      phase = exp.status.phase;
    };
    affected_resources = affected;
    audit = record {
      initiated_by = get_initiator;
      scheduled_execution = not (exp.spec.schedule == "");
      dry_run = exp.spec.dry_run;
      retry_count = exp.status.retry_count;
      creation_timestamp = audited;
    };
    error_details = details;
  }

  unfoldable pub create_history_record :
      HistoryConfig
      → ChaosExperiment
      → String
      → List ResourceReference
      → ℕ
      → Option ErrorDetails
      → M W (Result (Unit {0}))
  unfolding generate_short_uid history_record
  create_history_record config exp status affected start details =
      if not config.enabled then return (ok tt) else do
        stamped ← now
        uid ← generate_short_uid
        let name = f.dashed exp.name (f.timestamp stamped) uid
        ended ← now
        since ← now
        audited ← now
        created ←
            create_history
              (history_record config exp status affected start details name ended since audited)
        elim created [
          | err e ↦ return (err (wrapf "failed to create history record: %w" end e))
          | ok _ ↦ do
            metric "chaosexperiment_history_records_total" (exp.spec.action ∷ status ∷ []) 1
            spawn (retention_cleanup exp)
            spawn ttl_cleanup
            return (ok tt)
        ]
