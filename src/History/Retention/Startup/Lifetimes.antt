-- ===== src/History/Retention/Startup/Lifetimes.antt =====
-- cmd/main.go, the flag `history-ttl`, and internal/controller/history.go, `cleanupExpiredHistory`: which
-- records outlive a cleanup for the lifetimes that the operator accepts.
use k8s_chaos.Prelude.{
  ℕ, ℤ, pos, negsuc, zero, suc, ◌+◌, ◌≡◌, refl, ap, List, [], ◌∷◌, Bool, true, false, not, some,
  leb, select, inl, inr, Bool-cases, arith, if◌then◌else◌,
}
use k8s_chaos.Api.{ChaosExperimentHistory}
use k8s_chaos.Client.{Client}
use k8s_chaos.History.Retention.{
  HistoryConfig, is_expired, is_least, is_zero, cleanup_expired_history,
}
use k8s_chaos.History.Retention.Expiry.{
  Placed, Distinct, KeepsRecords, cleanup_expired_history-exact,
}
use k8s_chaos.History.Retention.Startup.{HistoryFlags, refuses_ttl, configured, configure_history}

module _ {A : Type 0} (p q : A → Bool) where
  select-select :
      ((x : A) → q x ≡ true → p x ≡ true) → (xs : List A) → select q (select p xs) ≡ select q xs
  select-select h [] = refl
  select-select h (x ∷ xs) =
      let rest = select-select h xs in
      elim (Bool-cases (q x)) [
        | inl e ↦ rw (h x e, e) (ap (λ l. x ∷ l) rest)
        | inr e ↦ elim (Bool-cases (p x)) [ inl d ↦ rw (d, e) rest | inr d ↦ rw (d, e) rest ]
      ]

  select-none : ((x : A) → q x ≡ true → p x ≡ false) → (xs : List A) → select q (select p xs) ≡ []
  select-none h [] = refl
  select-none h (x ∷ xs) =
      let rest = select-none h xs in
      elim (Bool-cases (q x)) [
        | inl e ↦ rw (h x e) rest
        | inr e ↦ elim (Bool-cases (p x)) [ inl d ↦ rw (d, e) rest | inr d ↦ rw d rest ]
      ]

-- Created an hour ago or later.
abbrev pub is_young : ℕ → ChaosExperimentHistory → Bool
is_young now r = leb now (r.creation_timestamp + 3600000000000)

abbrev pub is_past : ℕ → ChaosExperimentHistory → Bool
is_past now r = leb r.creation_timestamp now

-- What is left of the records that were stored: all of them for a lifetime of 0, at least those of the
-- last hour for a positive one, and of those that were created by now none for a negative one.
pub Outlives : ℤ → ℕ → List ChaosExperimentHistory → List ChaosExperimentHistory → Type 0
Outlives (pos zero) now before after = after ≡ before
Outlives (pos (suc n)) now before after = select (is_young now) after ≡ select (is_young now) before
Outlives (negsuc n) now before after = select (is_past now) after ≡ []

young-kept :
    (config : HistoryConfig) (now n : ℕ)
    → config.retention_ttl ≡ pos (suc n)
    → refuses_ttl (pos (suc n)) ≡ false
    → (r : ChaosExperimentHistory) → is_young now r ≡ true
    → not (is_expired config now r) ≡ true
unfolding is_expired refuses_ttl
young-kept config now n e h r y = rw e (ground (arith, h, y))

past-deleted :
    (config : HistoryConfig) (now n : ℕ)
    → config.retention_ttl ≡ negsuc n
    → is_least (negsuc n) ≡ false
    → (r : ChaosExperimentHistory) → is_past now r ≡ true
    → not (is_expired config now r) ≡ false
unfolding is_expired
past-deleted config now n e least r y = rw (e, least) (ground (arith, y))

select-Outlives :
    (ttl : ℤ) (config : HistoryConfig) (now : ℕ) (rs : List ChaosExperimentHistory)
    → config.retention_ttl ≡ ttl
    → refuses_ttl ttl ≡ false
    → is_least ttl ≡ false
    → Outlives ttl now rs
        (if is_zero ttl then rs else select (λ r. not (is_expired config now r)) rs)
unfolding Outlives
select-Outlives (pos zero) config now rs e h least = refl
select-Outlives (pos (suc n)) config now rs e h least =
    select-select _ _ (young-kept config now n e h) rs
select-Outlives (negsuc n) config now rs e h least =
    select-none _ _ (past-deleted config now n e least) rs

module _ {W : Type 0} (c : Client W) (stored : W → List ChaosExperimentHistory) where
  -- Where the operator starts with its flags, and the API server lists and deletes the records, which
  -- stand in the namespace under distinct names: a cleanup of expired records leaves all of them for a lifetime
  -- of 0, at least all those of the last hour for a positive lifetime, and for a negative one, which is
  -- accepted too and is not the least `time.Duration`, none of those that were created by then.
  pub configure_history-Outlives :
      (flags : HistoryFlags) (w : W)
      → configure_history flags ≡ some (configured flags)
      → is_least flags.history_ttl ≡ false
      → KeepsRecords c (configured flags) stored
      → Placed (configured flags) (stored w)
      → Distinct (stored w)
      → Outlives flags.history_ttl
          (c.now w).0
          (stored w)
          (stored (cleanup_expired_history c (configured flags) w).1)
  unfolding configure_history
  configure_history-Outlives flags w h least keeps placed distinct =
      rw (cleanup_expired_history-exact c (configured flags) stored keeps w placed distinct) (
        select-Outlives flags.history_ttl (configured flags) (c.now w).0 (stored w) refl
          (ground (arith, h)) least)
