-- ===== src/History/Retention/Startup.antt =====
-- cmd/main.go, the flags of the history, with `SetupWithManager` of
-- internal/controller/chaosexperiment_controller.go and `startPeriodicTTLCleanup` of
-- internal/controller/history.go. What the ticker lets happen until each tick is a list; it ends where
-- the context does.
pub mod Lifetimes
use k8s_chaos.Prelude.{
  ℕ, ℤ, pos, negsuc, String, List, [], ◌∷◌, Bool, true, false, ◌&&◌, Option, none, some, ltb,
  if◌then◌else◌,
}
use k8s_chaos.Client.{M, ◌>>◌, return, Client}
use k8s_chaos.History.Retention.{HistoryConfig, cleanup_expired_history}

-- `ttl > 0`.
abbrev pub is_positive : ℤ → Bool
is_positive (pos n) = ltb 0 n
is_positive (negsuc n) = false

abbrev pub below : ℤ → ℕ → Bool
below (pos n) limit = ltb n limit
below (negsuc n) limit = true

-- The values of the flags that start with `history-`.
pub record HistoryFlags : Type 0 where
  pub history_enabled : Bool
  pub history_namespace : String
  pub history_retention_limit : ℤ
  pub history_ttl : ℤ

unfoldable pub default_flags : HistoryFlags
default_flags = record {
  history_enabled = true;
  history_namespace = "chaos-system";
  history_retention_limit = pos 100;
  history_ttl = pos 2592000000000000;
}

-- The check of the flag `history-ttl`: `main` exits where it fails.
unfoldable pub refuses_ttl : ℤ → Bool
refuses_ttl ttl = is_positive ttl && below ttl 3600000000000

-- `historyConfig`, which leaves `SamplingRate` unset.
abbrev pub configured : HistoryFlags → HistoryConfig
configured flags = record {
  enabled = flags.history_enabled;
  namespace = flags.history_namespace;
  retention_limit = flags.history_retention_limit;
  retention_ttl = flags.history_ttl;
  sampling_rate = pos 0;
}

-- What the controller is given, where `main` goes on.
unfoldable pub configure_history : HistoryFlags → Option HistoryConfig
unfolding refuses_ttl
configure_history flags = if refuses_ttl flags.history_ttl then none else some (configured flags)

module _ {W : Type 0} (c : Client W) where
  unfoldable pub on_ticks : HistoryConfig → List (W → W) → M W (Unit {0})
  on_ticks config [] w = (tt, w)
  on_ticks config (until ∷ ticks) w =
      (do cleanup_expired_history c config; on_ticks config ticks) (until w)

  unfoldable pub start_periodic_ttl_cleanup : HistoryConfig → List (W → W) → M W (Unit {0})
  unfolding on_ticks
  start_periodic_ttl_cleanup config ticks = do
    cleanup_expired_history c config
    on_ticks config ticks

  -- What the manager runs of the cleanup: `Enabled && RetentionTTL > 0`.
  unfoldable pub run_managed_cleanup : HistoryConfig → List (W → W) → M W (Unit {0})
  unfolding start_periodic_ttl_cleanup
  run_managed_cleanup config ticks =
      if config.enabled && is_positive config.retention_ttl
      then start_periodic_ttl_cleanup config ticks
      else return tt
