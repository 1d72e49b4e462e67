-- ===== src/History/Sort.antt =====
-- internal/controller/history.go, `sortHistoryByAge`: a bubble sort by creation time.
use k8s_chaos.Prelude.{
  zero, suc, ◌-◌, ◌≤◌, ◌≡◌, ℕ, refl, List, [], ◌∷◌, ◌++◌, arith, ltb, length, All, if◌then◌else◌,
  Bool-cases, inl, inr, ap,
}
use mathlib.Core.List.{Perm, append-nil}
use mathlib.Core.List.Perm
use k8s_chaos.Api.{ChaosExperimentHistory}

-- The inner loop, with `k` comparisons left: neighbours in the wrong order are exchanged.
unfoldable pub bubble : ℕ → List ChaosExperimentHistory → List ChaosExperimentHistory
bubble zero xs = xs
bubble (suc k) [] = []
bubble (suc k) (x ∷ []) = x ∷ []
bubble (suc k) (x ∷ y ∷ r) =
    let swapped = y ∷ bubble k (x ∷ r) in
    let kept = x ∷ bubble k (y ∷ r) in
    if ltb y.creation_timestamp x.creation_timestamp then swapped else kept

-- The outer loop: each round makes one comparison less.
sort_rounds : ℕ → List ChaosExperimentHistory → List ChaosExperimentHistory
sort_rounds zero xs = xs
sort_rounds (suc k) xs = sort_rounds k (bubble (suc k) xs)

unfoldable pub sort_history_by_age : List ChaosExperimentHistory → List ChaosExperimentHistory
unfolding sort_rounds bubble
sort_history_by_age items = sort_rounds (length items - 1) items

-- `x` is not created after any of `ys`.
abbrev pub NotAfter : ChaosExperimentHistory → List ChaosExperimentHistory → Type 0
NotAfter x ys = All (λ y. x.creation_timestamp ≤ y.creation_timestamp) ys

abbrev pub IsSortedByAge : List ChaosExperimentHistory → Type 0
IsSortedByAge [] = Unit
IsSortedByAge (x ∷ xs) = NotAfter x xs × IsSortedByAge xs

bubble-perm : (k : ℕ) (xs : List ChaosExperimentHistory) → Perm (bubble k xs) xs
unfolding bubble
bubble-perm zero xs = Perm.refl xs
bubble-perm (suc k) [] = Perm.refl []
bubble-perm (suc k) (x ∷ []) = Perm.refl (x ∷ [])
bubble-perm (suc k) (x ∷ y ∷ r) =
    elim (Bool-cases (ltb y.creation_timestamp x.creation_timestamp)) [
      | inl e ↦ rw e (Perm.trans (Perm.cons y (bubble-perm k (x ∷ r))) (Perm.swap x y r))
      | inr e ↦ rw e (Perm.cons x (bubble-perm k (y ∷ r)))
    ]

sort_rounds-perm : (k : ℕ) (xs : List ChaosExperimentHistory) → Perm (sort_rounds k xs) xs
unfolding sort_rounds
sort_rounds-perm zero xs = Perm.refl xs
sort_rounds-perm (suc k) xs =
    Perm.trans (sort_rounds-perm k (bubble (suc k) xs)) (bubble-perm (suc k) xs)

-- What one round does to a list that is not empty: the greatest ends up behind the others.
front : ChaosExperimentHistory → List ChaosExperimentHistory → List ChaosExperimentHistory
front x [] = []
front x (y ∷ r) =
    if ltb y.creation_timestamp x.creation_timestamp then y ∷ front x r else x ∷ front y r

latest : ChaosExperimentHistory → List ChaosExperimentHistory → ChaosExperimentHistory
latest x [] = x
latest x (y ∷ r) = if ltb y.creation_timestamp x.creation_timestamp then latest x r else latest y r

bubble-append :
    (x : ChaosExperimentHistory) (xs ys : List ChaosExperimentHistory)
    → bubble (length xs) (x ∷ xs ++ ys) ≡ front x xs ++ latest x xs ∷ ys
unfolding bubble front latest
bubble-append x [] ys = refl
bubble-append x (y ∷ r) ys = elim (Bool-cases (ltb y.creation_timestamp x.creation_timestamp)) [
  | inl e ↦ rw e (ap (λ l. y ∷ l) (bubble-append x r ys))
  | inr e ↦ rw e (ap (λ l. x ∷ l) (bubble-append y r ys))
]

length-front :
    (x : ChaosExperimentHistory) (xs : List ChaosExperimentHistory)
    → length (front x xs) ≡ length xs
unfolding front
length-front x [] = refl
length-front x (y ∷ r) = ground (arith, length-front x r, length-front y r)

-- Nothing in the first list is created after anything in the second.
abbrev pub Before : List ChaosExperimentHistory → List ChaosExperimentHistory → Type 0
Before xs ys = All (λ x. NotAfter x ys) xs

head-le-latest :
    (x : ChaosExperimentHistory) (xs : List ChaosExperimentHistory)
    → x.creation_timestamp ≤ (latest x xs).creation_timestamp
unfolding latest
head-le-latest x [] = omega arith
head-le-latest x (y ∷ r) = ground (arith, head-le-latest x r, head-le-latest y r)

front-le-latest :
    (x : ChaosExperimentHistory) (xs : List ChaosExperimentHistory)
    → All (λ z. z.creation_timestamp ≤ (latest x xs).creation_timestamp) (front x xs)
unfolding front latest
front-le-latest x [] = tt
front-le-latest x (y ∷ r) = elim (Bool-cases (ltb y.creation_timestamp x.creation_timestamp)) [
  | inl e ↦ rw e (ground (arith, head-le-latest x r), front-le-latest x r)
  | inr e ↦ rw e (ground (arith, head-le-latest y r), front-le-latest y r)
]

-- What holds of every record before a round holds of every record behind it.
front-All :
    (P : ChaosExperimentHistory → Type 0) (x : ChaosExperimentHistory)
    (xs : List ChaosExperimentHistory)
    → P x
    → All P xs
    → All P (front x xs) × P (latest x xs)
unfolding front latest
front-All P x [] h hs = (tt, h)
front-All P x (y ∷ r) h (g, gs) =
    elim (Bool-cases (ltb y.creation_timestamp x.creation_timestamp)) [
      | inl e ↦ let (a, b) = front-All P x r h gs in rw e ((g, a), b)
      | inr e ↦ let (a, b) = front-All P y r g gs in rw e ((h, a), b)
    ]

Before-cons :
    (m : ChaosExperimentHistory) (xs ys : List ChaosExperimentHistory)
    → All (λ x. x.creation_timestamp ≤ m.creation_timestamp) xs
    → Before xs ys
    → Before xs (m ∷ ys)
Before-cons m [] ys h b = tt
Before-cons m (x ∷ xs) ys (h, hs) (b, bs) = ((h, b), Before-cons m xs ys hs bs)

Before-nil : (xs : List ChaosExperimentHistory) → Before xs []
Before-nil [] = tt
Before-nil (x ∷ xs) = (tt, Before-nil xs)

sort_rounds-IsSortedByAge :
    (k : ℕ) (xs ys : List ChaosExperimentHistory)
    → length xs ≡ suc k
    → Before xs ys
    → IsSortedByAge ys
    → IsSortedByAge (sort_rounds k (xs ++ ys))
unfolding sort_rounds
sort_rounds-IsSortedByAge k [] ys n b s = absurd (omega arith)
sort_rounds-IsSortedByAge zero (x ∷ []) ys n b s = (b.0, s)
sort_rounds-IsSortedByAge zero (x ∷ y ∷ xs) ys n b s = absurd (omega arith)
sort_rounds-IsSortedByAge (suc k) (x ∷ xs) ys n (bx, bs) s =
    let n' : suc k ≡ length xs = omega arith in
    let (fronts, last) = front-All (λ z. NotAfter z ys) x xs bx bs in
    rw (n', bubble-append)
      (sort_rounds-IsSortedByAge k (front x xs) (latest x xs ∷ ys)
        (omega (arith, length-front x xs))
        (Before-cons (latest x xs) (front x xs) ys (front-le-latest x xs) fronts) (last, s))

-- Sorting rearranges the records and puts them in order of their creation, the oldest first.
pub sort_history_by_age-sorts :
    (items : List ChaosExperimentHistory)
    → Perm (sort_history_by_age items) items × IsSortedByAge (sort_history_by_age items)
unfolding sort_history_by_age
sort_history_by_age-sorts [] = (Perm.refl [], tt)
sort_history_by_age-sorts (x ∷ xs) = (
  sort_rounds-perm (length (x ∷ xs) - 1) (x ∷ xs),
  let e : length (x ∷ xs) - 1 ≡ length xs = omega arith in
      rw e (
        rw append-nil at
          (sort_rounds-IsSortedByAge (length xs) (x ∷ xs) [] refl (Before-nil (x ∷ xs)) tt)),
)
