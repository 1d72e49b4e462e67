-- ===== src/Examples/Records.antt =====
-- The theorems on the history and on the statistics at concrete inputs.
use k8s_chaos.Prelude.{
  ℕ, pos, negsuc, not, select, some, ◌≡◌, refl, String, List, [], ◌∷◌, none, true, false,
}
use mathlib.Core.List.{Perm}
use k8s_chaos.Go.{lit, ok}
use k8s_chaos.Api.{ChaosExperiment, ChaosExperimentHistory}
use k8s_chaos.CommandLine.Stats.{calculate_stats}
use k8s_chaos.CommandLine.Stats.Census.{IsCensus, calculate_stats-IsCensus}
use k8s_chaos.History.Sort.{sort_history_by_age, sort_history_by_age-sorts, IsSortedByAge}
use k8s_chaos.History.Retention.{
  HistoryConfig, effective_limit, is_expired, ttl_namespace, delete_records,
  cleanup_old_history_records, cleanup_expired_history,
}
use k8s_chaos.History.Retention.Pruning.{IsPruned, cleanup_old_history_records-prunes}
use k8s_chaos.History.Retention.Expiry.{
  without, Placed, KeepsRecords, cleanup_expired_history-exact,
}
use k8s_chaos.History.Retention.Startup.{HistoryFlags, configured, configure_history}
use k8s_chaos.History.Retention.Startup.Lifetimes.{Outlives, configure_history-Outlives}
use k8s_chaos.Client.{Client}
use k8s_chaos.Examples.World.{World, kube, experiment, spec, cluster}

abbrev run : String → ℕ → ChaosExperimentHistory
run name created = record {
  name = name;
  namespace = "chaos-system";
  labels = [];
  creation_timestamp = created;
  experiment_ref = record { name = "kill-web"; namespace = "default"; uid = "1" };
  experiment_spec = spec;
  execution = record {
    start_time = created;
    end_time = none;
    duration = 0;
    status = "success";
    message = lit "";
    phase = "Completed";
  };
  affected_resources = [];
  audit = record {
    initiated_by = "";
    scheduled_execution = false;
    dry_run = false;
    retry_count = 0;
    creation_timestamp = created;
  };
  error_details = none;
}

abbrev runs : List ChaosExperimentHistory
runs = run "c" 30 ∷ run "a" 10 ∷ run "b" 20 ∷ []

sort_history_by_age-sorts_example :
    Perm (sort_history_by_age runs) runs × IsSortedByAge (sort_history_by_age runs)
sort_history_by_age-sorts_example = sort_history_by_age-sorts runs

abbrev recorded : World
recorded = record cluster { records = runs }

abbrev keep_two : HistoryConfig
keep_two = record {
  enabled = true;
  namespace = "chaos-system";
  retention_limit = pos 2;
  retention_ttl = pos 0;
  sampling_rate = pos 1;
}

cleanup_old_history_records-prunes_example :
    (doomed : List ChaosExperimentHistory) × (kept : List ChaosExperimentHistory) × IsPruned
      (effective_limit keep_two)
      runs
      doomed
      kept
    × (cleanup_old_history_records kube keep_two experiment recorded
        ≡ delete_records kube "retention_limit" doomed recorded)
cleanup_old_history_records-prunes_example =
    cleanup_old_history_records-prunes kube keep_two experiment runs recorded recorded refl

-- A store that a deletion takes records from, an hour and a bit after they were created.
abbrev archive : Client World
archive = record kube {
  delete_history = λ r w. (ok tt, record w { records = without r w.records });
}

abbrev an_hour_on : World
an_hour_on = record recorded { time = 3600000000020 }

keeps_records : (config : HistoryConfig) → KeepsRecords archive config (λ w. w.records)
keeps_records config = record {
  reads_clock = λ w. refl;
  counts = λ name labels n w. refl;
  lists = λ w. refl;
  listing = λ w. refl;
  deletes = λ r w h. refl;
}

abbrev for_an_hour : HistoryConfig
for_an_hour = record keep_two { retention_ttl = pos 3600000000000 }

placed : Placed for_an_hour runs
unfolding ttl_namespace
placed = (refl, (refl, (refl, tt)))

-- The record of time 10 has expired, and those of 20 and 30 have not.
cleanup_expired_history-exact_example :
    (cleanup_expired_history archive for_an_hour an_hour_on).1.records
    ≡ select (λ r. not (is_expired for_an_hour 3600000000020 r)) runs
cleanup_expired_history-exact_example =
    cleanup_expired_history-exact archive for_an_hour (λ w. w.records) (keeps_records for_an_hour)
      an_hour_on placed ((refl, (refl, tt)), ((refl, tt), (tt, tt)))

abbrev flags : HistoryFlags
flags = record {
  history_enabled = true;
  history_namespace = "chaos-system";
  history_retention_limit = pos 100;
  history_ttl = negsuc 3599999999999;
}

accepted : configure_history flags ≡ some (configured flags)
unfolding configure_history
accepted = refl

stands : Placed (configured flags) runs
unfolding ttl_namespace
stands = (refl, (refl, (refl, tt)))

configure_history-Outlives_example :
    Outlives
      (negsuc 3599999999999)
      3600000000020
      runs
      (cleanup_expired_history archive (configured flags) an_hour_on).1.records
configure_history-Outlives_example =
    configure_history-Outlives archive (λ w. w.records) flags an_hour_on accepted refl
      (keeps_records (configured flags)) stands ((refl, (refl, tt)), ((refl, tt), (tt, tt)))

abbrev failing : ChaosExperiment
failing = record experiment { status = record (experiment.status) { phase = "Failed" } }

calculate_stats-IsCensus_example :
    IsCensus (calculate_stats (experiment ∷ failing ∷ [])) (experiment ∷ failing ∷ [])
calculate_stats-IsCensus_example = calculate_stats-IsCensus (experiment ∷ failing ∷ [])

stats-failed : (calculate_stats (experiment ∷ failing ∷ [])).failed ≡ 1
unfolding calculate_stats
stats-failed = refl
