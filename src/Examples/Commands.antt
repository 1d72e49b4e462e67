-- ===== src/Examples/Commands.antt =====
-- The theorems on the command line tool at concrete inputs.
use k8s_chaos.Prelude.{
  ◌⊎◌, ap, none, eq_iff, String, ◌==◌, ℕ, ℤ, pos, ◌≡◌, refl, inl, inr, List, [], ◌∷◌, true, false,
  some, arith, if◌then◌else◌,
}
use mathlib.Core.List.Perm
use k8s_chaos.Go.{ok}
use k8s_chaos.Api.{ChaosExperiment}
use k8s_chaos.CommandLine.Terminal.{Terminal}
use k8s_chaos.CommandLine.Top.{
  ExperimentMetrics, Sorter, more_retries, older, has_retries, top_by_retries, top_by_age,
}
use k8s_chaos.CommandLine.Top.Ranking.{Less, Sorts, IsTop, ranking_rows-IsTop}
use k8s_chaos.CommandLine.Delete.{run_delete}
use k8s_chaos.CommandLine.Delete.Confirmed.{IsYes, response_of, run_delete-Keeps}
use k8s_chaos.Examples.World.{experiment}

-- Two experiments: the second has more retries and is older.
abbrev metrics : ℕ → ℤ → ExperimentMetrics
metrics retries age = record {
  name = "kill-web";
  namespace = "default";
  action = "pod-kill";
  retry_count = retries;
  phase = "Failed";
  age = age;
  target_ns = "default";
}

abbrev two : List ExperimentMetrics
two = metrics 1 (pos 10) ∷ metrics 3 (pos 30) ∷ []

abbrev insert : Less → ExperimentMetrics → List ExperimentMetrics → List ExperimentMetrics
insert less m [] = m ∷ []
insert less m (n ∷ ns) = let rest = insert less m ns in if less m n then m ∷ n ∷ ns else n ∷ rest

abbrev sort : Sorter
sort less [] = []
sort less (m ∷ ms) = insert less m (sort less ms)

by_retries : Sorts sort more_retries two
by_retries = record { keeps_all = Perm.swap _ _ []; orders = ((refl, tt), (tt, tt)) }

by_age : Sorts sort older two
by_age = record { keeps_all = Perm.swap _ _ []; orders = ((refl, tt), (tt, tt)) }

ranking_rows-IsTop_example :
    IsTop 1 has_retries more_retries two (top_by_retries sort (pos 1) two)
    × IsTop 1 (λ m. true) older two (top_by_age sort (pos 1) two)
ranking_rows-IsTop_example = ranking_rows-IsTop sort (pos 1) two by_retries by_age

first_row : top_by_retries sort (pos 1) two ≡ metrics 3 (pos 30) ∷ []
unfolding top_by_retries
first_row = refl

-- A terminal at which the answer is always `n`.
abbrev refusing : Terminal (List ChaosExperiment)
refusing = record {
  connect = λ w. (ok tt, w);
  now = λ w. (0, w);
  list_experiments = λ namespace w. (ok w, w);
  get_experiment = λ namespace name w. (ok experiment, w);
  delete_experiment = λ exp w. (ok tt, []);
  print = λ m w. (tt, w);
  scan_line = λ w. (some "n", w);
}

abbrev IsThere : List ChaosExperiment → Type 0
IsThere w = w ≡ experiment ∷ []

not_n : {A : Type 0} (a : String) → "n" == a ≡ false → some "n" ≡ some a → A
not_n a n e =
    let same : "n" ≡ a = ap (λ o. elim o [ none ↦ "" | some s ↦ s ]) e in
    let yes = (eq_iff "n" a).1 same in absurd (ground (arith, yes, n))

no_consent :
    {A : Type 0}
    → (false ≡ true) ⊎ IsYes (response_of refusing "default" "kill-web" (experiment ∷ []))
    → A
no_consent (inl e) = absurd (ground (arith, e))
no_consent (inr (inl e)) = not_n "y" refl e
no_consent (inr (inr (inl e))) = not_n "Y" refl e
no_consent (inr (inr (inr e))) = not_n "yes" refl e

run_delete-Keeps_example :
    IsThere (run_delete refusing "default" false "kill-web" (experiment ∷ [])).1
run_delete-Keeps_example =
    run_delete-Keeps refusing IsThere
      (record {
        connects = λ w p. p;
        gets = λ namespace name w p. p;
        prints = λ m w p. p;
        scans = λ w p. p;
      })
      "default" "kill-web" false (experiment ∷ []) (λ c exp h. no_consent c) refl
