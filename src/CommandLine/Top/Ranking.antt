-- ===== src/CommandLine/Top/Ranking.antt =====
-- pkg/cli/cmd/top.go, `printTopByRetries` and `printTopByAge`: which experiments get a row.
use k8s_chaos.Prelude.{
  ℕ, ℤ, pos, negsuc, zero, suc, ◌+◌, ◌≤◌, ◌≡◌, ◌⊎◌, inl, inr, refl, sym, ap, List, [], ◌∷◌, ◌++◌,
  Bool, true, false, not, leb, All, length, take, drop, select, to_ℕ, Bool-cases, arith, take-drop,
  length-take, All-take, All-drop, All-append, All-select, select-All,
}
use mathlib.Core.List.{Perm, append_assoc, perm_middle}
use mathlib.Core.List.Perm
use k8s_chaos.CommandLine.Top.{
  ExperimentMetrics, Sorter, has_retries, more_retries, older, reaches, retry_rows, top_by_retries,
  top_by_age,
}

abbrev pub Less : Type 0
Less = ExperimentMetrics → ExperimentMetrics → Bool

-- No later one is less than an earlier one.
abbrev pub IsOrdered : Less → List ExperimentMetrics → Type 0
IsOrdered less [] = Unit
IsOrdered less (m ∷ ms) = All (λ s. less s m ≡ false) ms × IsOrdered less ms

-- `sort.Slice`: the elements in another order, which agrees with `less`.
pub record Sorts (sort : Sorter) (less : Less) (metrics : List ExperimentMetrics) : Type 0 where
  pub keeps_all : Perm (sort less metrics) metrics
  pub orders : IsOrdered less (sort less metrics)

-- The rows are the first of those that are worth one: at most `limit`, and none that is left over and
-- worth a row unless the limit is reached, nor one that is less than a row.
pub record IsTop (limit : ℕ) (shows : ExperimentMetrics → Bool) (less : Less)
    (metrics rows : List ExperimentMetrics) : Type 0 where
  pub rest : List ExperimentMetrics
  pub split : Perm (rows ++ rest) metrics
  pub shown : All (λ m. shows m ≡ true) rows
  pub bound : length rows ≤ limit
  pub full : (length rows ≡ limit) ⊎ All (λ m. shows m ≡ false) rest
  pub ahead : All (λ m. All (λ s. less s m ≡ false) rest) rows

drop-nil : (n : ℕ) (ms : List ExperimentMetrics) → leb n (length ms) ≡ false → drop n ms ≡ []
drop-nil zero [] h = refl
drop-nil (suc n) [] h = refl
drop-nil zero (m ∷ ms) h = ground (arith, h)
drop-nil (suc n) (m ∷ ms) h = drop-nil n ms (ground (arith, h))

retry_rows-reached :
    (limit : ℤ) (count : ℕ) (ms : List ExperimentMetrics)
    → reaches limit count ≡ true
    → retry_rows limit count ms ≡ []
unfolding retry_rows
retry_rows-reached limit count [] h = refl
retry_rows-reached limit count (m ∷ ms) h = rw h refl

retry_rows-left :
    (limit count left : ℕ) (ms : List ExperimentMetrics)
    → count + left ≡ limit
    → retry_rows (pos limit) count ms ≡ take left (select has_retries ms)
unfolding retry_rows
retry_rows-left limit count zero ms h = retry_rows-reached (pos limit) count ms (ground (arith, h))
retry_rows-left limit count (suc left) [] h = refl
retry_rows-left limit count (suc left) (m ∷ ms) h =
    let open_row : leb limit count ≡ false = ground (arith, h) in
    elim (Bool-cases (has_retries m)) [
      | inl e ↦
          rw (open_row, e)
            (ap (λ l. m ∷ l) (retry_rows-left limit (suc count) left ms (omega (arith, h))))
      | inr e ↦ rw (open_row, e) (retry_rows-left limit count (suc left) ms h)
    ]

retry_rows-take :
    (limit : ℤ) (ms : List ExperimentMetrics)
    → retry_rows limit 0 ms ≡ take (to_ℕ limit) (select has_retries ms)
retry_rows-take (pos l) ms = retry_rows-left l 0 l ms (omega arith)
retry_rows-take (negsuc l) ms = retry_rows-reached (negsuc l) 0 ms refl

select-split :
    (p : ExperimentMetrics → Bool) (ms : List ExperimentMetrics)
    → Perm (select p ms ++ select (λ m. not (p m)) ms) ms
select-split p [] = Perm.refl []
select-split p (m ∷ ms) = elim (Bool-cases (p m)) [
  | inl e ↦ rw e (Perm.cons m (select-split p ms))
  | inr e ↦ rw e (Perm.trans (perm_middle (select p ms) _) (Perm.cons m (select-split p ms)))
]

select-IsOrdered :
    (p : ExperimentMetrics → Bool) (less : Less) (ms : List ExperimentMetrics)
    → IsOrdered less ms
    → IsOrdered less (select p ms)
select-IsOrdered p less [] h = tt
select-IsOrdered p less (m ∷ ms) (h, hs) = elim (Bool-cases (p m)) [
  | inl e ↦ rw e (select-All p _ ms h, select-IsOrdered p less ms hs)
  | inr e ↦ rw e (select-IsOrdered p less ms hs)
]

take-ahead :
    (less : Less) (n : ℕ) (ms : List ExperimentMetrics)
    → IsOrdered less ms
    → All (λ m. All (λ s. less s m ≡ false) (drop n ms)) (take n ms)
take-ahead less zero ms h = tt
take-ahead less (suc n) [] h = tt
take-ahead less (suc n) (m ∷ ms) (h, hs) = (All-drop _ n ms h, take-ahead less n ms hs)

module _ (shows : ExperimentMetrics → Bool) (less : Less)
    (worth : (s m : ExperimentMetrics) → shows s ≡ false → less s m ≡ false) where
  hidden-behind :
      (m : ExperimentMetrics) (ms : List ExperimentMetrics)
      → All (λ s. less s m ≡ false) (select (λ s. not (shows s)) ms)
  hidden-behind m ms = All-select _ _ (λ s e. worth s m (ground (arith, e))) ms

  ahead-append :
      (rows ds ms : List ExperimentMetrics)
      → All (λ m. All (λ s. less s m ≡ false) ds) rows
      → All (λ m. All (λ s. less s m ≡ false) (ds ++ select (λ s. not (shows s)) ms)) rows
  ahead-append [] ds ms h = tt
  ahead-append (m ∷ rows) ds ms (h, hs) =
      (All-append _ ds _ h (hidden-behind m ms), ahead-append rows ds ms hs)

  full-or-hidden :
      (limit : ℕ) (ms : List ExperimentMetrics)
      → (length (take limit (select shows ms)) ≡ limit)
        ⊎ All
            (λ m. shows m ≡ false)
            (drop limit (select shows ms) ++ select (λ s. not (shows s)) ms)
  full-or-hidden limit ms =
      let rows = select shows ms in
      let n = length-take limit rows in
      elim (Bool-cases (leb limit (length rows))) [
        | inl e ↦ inl (ground (arith, n, e))
        | inr e ↦ inr (rw (drop-nil limit rows e) (All-select _ _ (λ s h. ground (arith, h)) ms))
      ]

  take-select-IsTop :
      (limit : ℕ) (metrics sorted : List ExperimentMetrics)
      → Perm sorted metrics
      → IsOrdered less sorted
      → IsTop limit shows less metrics (take limit (select shows sorted))
  take-select-IsTop limit metrics sorted p o =
      let rows = select shows sorted in
      let hidden = select (λ m. not (shows m)) sorted in
      record {
        rest = drop limit rows ++ hidden;
        split =
            rw (sym (append_assoc (take limit rows) (drop limit rows) hidden), take-drop limit rows)
              (Perm.trans (select-split shows sorted) p);
        shown = All-take _ limit rows (All-select _ _ (λ m e. e) sorted);
        bound = let n = length-take limit rows in omega (arith, n);
        full = full-or-hidden limit sorted;
        ahead =
            ahead-append (take limit rows) (drop limit rows) sorted
              (take-ahead less limit rows (select-IsOrdered shows less sorted o));
      }

select-always : (ms : List ExperimentMetrics) → select (λ m. true) ms ≡ ms
select-always [] = refl
select-always (m ∷ ms) = ap (λ l. m ∷ l) (select-always ms)

-- Where `sort.Slice` sorts, the rows of the table by retries are at most `limit` experiments with
-- retries, none of which has fewer than one that gets no row, and the rows of the table by age at most
-- `limit` experiments, none of which is younger than one that gets no row. A row is left out only where
-- the limit is reached.
pub ranking_rows-IsTop :
    (sort : Sorter) (limit : ℤ) (metrics : List ExperimentMetrics)
    → Sorts sort more_retries metrics
    → Sorts sort older metrics
    → IsTop (to_ℕ limit) has_retries more_retries metrics (top_by_retries sort limit metrics)
      × IsTop (to_ℕ limit) (λ m. true) older metrics (top_by_age sort limit metrics)
unfolding top_by_retries top_by_age
ranking_rows-IsTop sort limit metrics r a = (
  rw (retry_rows-take limit (sort more_retries metrics)) (
      take-select-IsTop has_retries more_retries (λ s m h. ground (arith, h)) (to_ℕ limit) metrics
        (sort more_retries metrics) r.keeps_all r.orders),
  rw (sym (select-always (sort older metrics))) (
      take-select-IsTop (λ m. true) older (λ s m h. ground (arith, h)) (to_ℕ limit) metrics
        (sort older metrics) a.keeps_all a.orders),
)
