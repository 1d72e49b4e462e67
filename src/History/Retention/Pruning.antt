-- ===== src/History/Retention/Pruning.antt =====
-- internal/controller/history.go, `cleanupOldHistoryRecords`: what it deletes.
use k8s_chaos.Prelude.{
  ℕ, zero, suc, ◌-◌, ◌≡◌, refl, List, [], ◌∷◌, ◌++◌, some, true, false, take, drop, length, leb,
  min, arith, inl, inr, Bool-cases, ap, sym, ◌∙◌, length-drop, take-drop, All-drop,
}
use mathlib.Core.List.{Perm}
use mathlib.Core.List.Perm
use mathlib.Core.List
use mathlib.Core.Nat.{ℕ as LibraryNat}
use k8s_chaos.Go.{ok}
use k8s_chaos.Api.{ChaosExperiment, ChaosExperimentHistory}
use k8s_chaos.Client.{Client}
use k8s_chaos.History.Sort.{sort_history_by_age, sort_history_by_age-sorts, IsSortedByAge, Before}
use k8s_chaos.History.Retention.{
  HistoryConfig, effective_limit, delete_records, cleanup_old_history_records,
}

take-Before-drop :
    (n : ℕ) (xs : List ChaosExperimentHistory) → IsSortedByAge xs → Before (take n xs) (drop n xs)
take-Before-drop zero xs h = tt
take-Before-drop (suc n) [] h = tt
take-Before-drop (suc n) (x ∷ xs) (h, hs) = (All-drop _ n xs h, take-Before-drop n xs hs)

-- The records split into those that are deleted and those that are kept: at most `limit`, none of which
-- was created before a deleted one.
pub record IsPruned (limit : ℕ) (items doomed kept : List ChaosExperimentHistory) : Type 0 where
  pub split : Perm (doomed ++ kept) items
  pub oldest : Before doomed kept
  pub count : length kept ≡ min limit (length items)

-- The library counts in another type of numbers.
to_native : LibraryNat → ℕ
to_native LibraryNat.zero = 0
to_native (LibraryNat.suc n) = suc (to_native n)

length-to_native : {A : Type 0} (xs : List A) → length xs ≡ to_native (List.length xs)
unfolding to_native
length-to_native [] = refl
length-to_native (x ∷ xs) = ap suc (length-to_native xs)

length-Perm : {A : Type 0} {xs ys : List A} → Perm xs ys → length xs ≡ length ys
length-Perm {xs} {ys} p =
    length-to_native xs ∙ ap to_native (Perm.length-eq p) ∙ sym (length-to_native ys)

length-kept :
    (limit : ℕ) (items sorted : List ChaosExperimentHistory)
    → length sorted ≡ length items
    → leb (length items) limit ≡ false
    → length (drop (length items - limit) sorted) ≡ min limit (length items)
length-kept limit items sorted e many =
    let d = length-drop (length items - limit) sorted in ground (arith, d, e, many)

length-all : (limit n : ℕ) → leb n limit ≡ true → n ≡ min limit n
length-all limit n few = ground (arith, few)

module _ {W : Type 0} (c : Client W) where
  -- Where the list of records is read, the retention cleanup makes the deletions of a loop over the
  -- oldest records, which leaves as many as the limit allows.
  pub cleanup_old_history_records-prunes :
      (config : HistoryConfig) (exp : ChaosExperiment) (items : List ChaosExperimentHistory)
      (w w' : W)
      → c.list_history exp.namespace (some exp.name) w ≡ (ok items, w')
      → (doomed : _) × (kept : _) × IsPruned (effective_limit config) items doomed kept
        × (cleanup_old_history_records c config exp w
            ≡ delete_records c "retention_limit" doomed w')
  unfolding cleanup_old_history_records delete_records
  cleanup_old_history_records-prunes config exp items w w' l =
      let limit = effective_limit config in
      let sorted = sort_history_by_age items in
      let (perm, order) = sort_history_by_age-sorts items in
      elim (Bool-cases (leb (length items) limit)) [
        | inl few ↦ (
          [],
          items,
          record {
            split = Perm.refl items;
            oldest = tt;
            count = length-all limit (length items) few;
          },
          rw (l, few) refl,
        )
        | inr many ↦
            let n = length items - limit in
            (
              take n sorted,
              drop n sorted,
              record {
                split = rw (take-drop n sorted) perm;
                oldest = take-Before-drop n sorted order;
                count = length-kept limit items sorted (length-Perm perm) many;
              },
              rw (l, many) refl,
            )
      ]
