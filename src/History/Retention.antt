-- ===== src/History/Retention.antt =====
-- internal/controller/history.go: `cleanupOldHistoryRecords` and `cleanupExpiredHistory`.
pub mod Pruning
pub mod Expiry
pub mod Startup
use k8s_chaos.Prelude.{
  ℕ, ℤ, pos, negsuc, zero, suc, ◌+◌, ◌-◌, String, List, [], ◌∷◌, Bool, true, false, some, none, ltb,
  eqb, ◌^◌, leb, length, take, select, is_nonpos, to_ℕ, if◌then◌else◌, ◌==◌,
}
use k8s_chaos.Go.{Result, ok, err}
use k8s_chaos.Api.{ChaosExperiment, ChaosExperimentHistory}
use k8s_chaos.Client.{M, ◌>>=◌, ◌>>◌, return, Client}
use k8s_chaos.History.Sort.{sort_history_by_age}

pub record HistoryConfig : Type 0 where
  pub enabled : Bool
  pub namespace : String
  pub retention_limit : ℤ
  -- Nanoseconds; `time.Duration` is signed.
  pub retention_ttl : ℤ
  pub sampling_rate : ℤ

unfoldable pub default_history_config : HistoryConfig
default_history_config = record {
  enabled = true;
  namespace = "chaos-system";
  retention_limit = pos 100;
  retention_ttl = pos 2592000000000000;
  sampling_rate = pos 1;
}

-- `if retentionLimit <= 0 { retentionLimit = 100 }`.
unfoldable pub effective_limit : HistoryConfig → ℕ
effective_limit config =
    if is_nonpos config.retention_limit then 100 else to_ℕ config.retention_limit

-- The least `time.Duration`, which is its own negation.
abbrev pub is_least : ℤ → Bool
is_least (pos n) = false
is_least (negsuc n) = eqb n (2 ^ 63 - 1)

-- `CreationTimestamp.Before(time.Now().Add(-RetentionTTL))`.
unfoldable pub is_expired : HistoryConfig → ℕ → ChaosExperimentHistory → Bool
is_expired config now r = elim config.retention_ttl [
  | pos ttl ↦ ltb (r.creation_timestamp + ttl) now
  | negsuc n ↦
      if is_least (negsuc n)
      then ltb (r.creation_timestamp + 2 ^ 63) now
      else ltb r.creation_timestamp (now + suc n)
]

abbrev pub is_zero : ℤ → Bool
is_zero (pos zero) = true
is_zero (pos (suc n)) = false
is_zero (negsuc n) = false

-- `historyNamespace` of the cleanup of expired records.
unfoldable pub ttl_namespace : HistoryConfig → String
ttl_namespace config = if config.namespace == "" then "chaos-system" else config.namespace

module _ {W : Type 0} (c : Client W) where
  open c use {now, metric, list_history, delete_history}

  -- One round of a cleanup loop: a failed deletion is logged, and the loop goes on.
  unfoldable pub delete_record : String → ChaosExperimentHistory → M W (Unit {0})
  delete_record why r = do
    deleted ← delete_history r
    elim deleted [
      | ok _ ↦ metric "chaosexperiment_history_cleanup_total" (why ∷ []) 1
      | err _ ↦ return tt
    ]

  unfoldable pub delete_records : String → List ChaosExperimentHistory → M W (Unit {0})
  unfolding delete_record
  delete_records why [] = return tt
  delete_records why (r ∷ rs) = do delete_record why r; delete_records why rs

  unfoldable pub cleanup_old_history_records : HistoryConfig → ChaosExperiment → M W (Unit {0})
  unfolding effective_limit sort_history_by_age delete_records
  cleanup_old_history_records config exp = do
    let limit = effective_limit config
    listed ← list_history exp.namespace (some exp.name)
    elim listed [
      | err _ ↦ return tt
      | ok items ↦
          if leb (length items) limit
          then return tt
          else delete_records "retention_limit"
              (take (length items - limit) (sort_history_by_age items))
    ]

  -- What follows the listing; an error of it is logged.
  unfoldable pub delete_expired :
      HistoryConfig → ℕ → Result (List ChaosExperimentHistory) → M W (Unit {0})
  unfolding is_expired delete_records
  delete_expired config t (err _) = return tt
  delete_expired config t (ok items) =
      delete_records "ttl_expired" (select (is_expired config t) items)

  unfoldable pub cleanup_expired_history : HistoryConfig → M W (Unit {0})
  unfolding ttl_namespace delete_expired
  cleanup_expired_history config = if is_zero config.retention_ttl then return tt else do
    t ← now
    listed ← list_history (ttl_namespace config) none
    delete_expired config t listed
