-- ===== src/History/Retention/Expiry.antt =====
-- internal/controller/history.go, `cleanupExpiredHistory`: what it deletes.
use k8s_chaos.Prelude.{
  ℕ, ◌≡◌, refl, sym, ◌∙◌, ap, List, [], ◌∷◌, none, Bool, false, not, All, select, ◌==◌, inl, inr,
  Bool-cases, arith, eq_refl, eq_iff, select-All, if◌then◌else◌,
}
use k8s_chaos.Go.{ok}
use k8s_chaos.Api.{ChaosExperimentHistory}
use k8s_chaos.Client.{Client}
use k8s_chaos.History.Retention.{
  HistoryConfig, is_zero, is_expired, ttl_namespace, delete_record, delete_records, delete_expired,
  cleanup_expired_history,
}

abbrev pub has_name_of : ChaosExperimentHistory → ChaosExperimentHistory → Bool
has_name_of r s = r.name == s.name

-- The records without those that have the name of the given one.
abbrev pub without :
    ChaosExperimentHistory → List ChaosExperimentHistory → List ChaosExperimentHistory
without r rs = select (λ s. not (has_name_of r s)) rs

without_each :
    List ChaosExperimentHistory → List ChaosExperimentHistory → List ChaosExperimentHistory
without_each [] rs = rs
without_each (d ∷ ds) rs = without_each ds (without d rs)

-- No two records have one name.
abbrev pub Distinct : List ChaosExperimentHistory → Type 0
Distinct [] = Unit
Distinct (r ∷ rs) = All (λ s. has_name_of r s ≡ false) rs × Distinct rs

-- The records stand in the namespace that the cleanup lists.
abbrev pub Placed : HistoryConfig → List ChaosExperimentHistory → Type 0
Placed config rs = All (λ r. r.namespace ≡ ttl_namespace config) rs

-- A store of the records of a namespace, which a listing returns and a deletion takes a name from.
pub record KeepsRecords {W : Type 0} (c : Client W) (config : HistoryConfig)
    (stored : W → List ChaosExperimentHistory) : Type 0 where
  pub reads_clock : (w : W) → stored (c.now w).1 ≡ stored w
  pub counts :
      (name : _) (labels : _) (n : ℕ) (w : W) → stored (c.metric name labels n w).1 ≡ stored w
  pub lists : (w : W) → (c.list_history (ttl_namespace config) none w).0 ≡ ok (stored w)
  pub listing : (w : W) → stored (c.list_history (ttl_namespace config) none w).1 ≡ stored w
  pub deletes :
      (r : ChaosExperimentHistory) (w : W)
      → r.namespace ≡ ttl_namespace config
      → stored (c.delete_history r w).1 ≡ without r (stored w)

without-id :
    (r : ChaosExperimentHistory) (rs : List ChaosExperimentHistory)
    → All (λ s. has_name_of r s ≡ false) rs
    → without r rs ≡ rs
without-id r [] h = refl
without-id r (s ∷ rs) (h, hs) = rw h (ap (λ l. s ∷ l) (without-id r rs hs))

-- Names are compared in either order.
other_way : (r s : ChaosExperimentHistory) → has_name_of r s ≡ false → has_name_of s r ≡ false
other_way r s h = elim (Bool-cases (has_name_of s r)) [
  | inr e ↦ e
  | inl e ↦
      let a = (eq_iff r.name s.name).1 (sym ((eq_iff s.name r.name).0 e)) in ground (arith, a, h)
]

without_each-other :
    (r : ChaosExperimentHistory) (ds rs : List ChaosExperimentHistory)
    → All (λ s. has_name_of r s ≡ false) ds
    → without_each ds (r ∷ rs) ≡ r ∷ without_each ds rs
unfolding without_each
without_each-other r [] rs h = refl
without_each-other r (d ∷ ds) rs (h, hs) =
    rw (other_way r d h) (without_each-other r ds (without d rs) hs)

without_each-first :
    (r : ChaosExperimentHistory) (ds rs : List ChaosExperimentHistory)
    → All (λ s. has_name_of r s ≡ false) rs
    → without_each (r ∷ ds) (r ∷ rs) ≡ without_each ds rs
unfolding without_each
without_each-first r ds rs h = rw (eq_refl r.name) (ap (without_each ds) (without-id r rs h))

-- Taking the selected records away by their names leaves the others.
without_each-select :
    (p : ChaosExperimentHistory → Bool) (rs : List ChaosExperimentHistory)
    → Distinct rs
    → without_each (select p rs) rs ≡ select (λ r. not (p r)) rs
unfolding without_each
without_each-select p [] h = refl
without_each-select p (r ∷ rs) (h, hs) = elim (Bool-cases (p r)) [
  | inl e ↦ rw e (without_each-first r (select p rs) rs h ∙ without_each-select p rs hs)
  | inr e ↦ rw e (
      without_each-other r (select p rs) rs (select-All p _ rs h)
      ∙ ap (λ l. r ∷ l) (without_each-select p rs hs))
]

module _ {W : Type 0} (c : Client W) (config : HistoryConfig)
    (stored : W → List ChaosExperimentHistory) (keeps : KeepsRecords c config stored) where
  delete_record-without :
      (why : _) (r : ChaosExperimentHistory) (w : W)
      → r.namespace ≡ ttl_namespace config
      → stored (delete_record c why r w).1 ≡ without r (stored w)
  unfolding delete_record
  delete_record-without why r w h =
      let d = keeps.deletes r w h in
      let m =
        keeps.counts "chaosexperiment_history_cleanup_total" (why ∷ []) 1
          (c.delete_history r w).1 in
      grind (arith, d, m)

  delete_records-without_each :
      (why : _) (rs : List ChaosExperimentHistory) (w : W)
      → Placed config rs
      → stored (delete_records c why rs w).1 ≡ without_each rs (stored w)
  unfolding delete_records without_each
  delete_records-without_each why [] w h = refl
  delete_records-without_each why (r ∷ rs) w (h, hs) =
      delete_records-without_each why rs (delete_record c why r w).1 hs
      ∙ ap (without_each rs) (delete_record-without why r w h)

  delete_expired-without_each :
      (t : ℕ) (answer : _) (items : List ChaosExperimentHistory) (w : W)
      → answer ≡ ok items
      → Placed config items
      → stored (delete_expired c config t answer w).1
        ≡ without_each (select (is_expired config t) items) (stored w)
  unfolding delete_expired
  delete_expired-without_each t answer items w e h = rw e (
      delete_records-without_each "ttl_expired" (select (is_expired config t) items) w
        (select-All (is_expired config t) _ items h))

  -- Where the records that are stored stand in the namespace and have distinct names, and the API server lists and deletes them,
  -- the cleanup of expired records takes away exactly those that are expired at the time it reads,
  -- unless the time to live is 0, where it takes none away.
  pub cleanup_expired_history-exact :
      (w : W)
      → Placed config (stored w)
      → Distinct (stored w)
      → stored (cleanup_expired_history c config w).1 ≡ (
          if is_zero config.retention_ttl
          then stored w
          else select (λ r. not (is_expired config (c.now w).0 r)) (stored w))
  unfolding cleanup_expired_history
  cleanup_expired_history-exact w placed h = elim (Bool-cases (is_zero config.retention_ttl)) [
    | inl z ↦ rw z refl
    | inr z ↦
        let (t, u) = c.now w in
        let p = is_expired config t in
        rw z (
          delete_expired-without_each t _ (stored u) _ (keeps.lists u)
            (rw (keeps.reads_clock w) placed)
          ∙ ap (without_each (select p (stored u))) (keeps.listing u)
          ∙ rw (keeps.reads_clock w) (without_each-select p (stored w) h))
  ]
