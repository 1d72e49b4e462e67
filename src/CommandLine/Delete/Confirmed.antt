-- ===== src/CommandLine/Delete/Confirmed.antt =====
-- pkg/cli/cmd/delete.go: what has to be answered before an experiment is deleted.
use k8s_chaos.Prelude.{
  ◌≡◌, refl, ap, ◌⊎◌, inl, inr, String, Bool, true, false, Option, none, some, Bool-cases, arith,
  eq_iff, ◌==◌,
}
use k8s_chaos.Go.{Result, ok, err}
use k8s_chaos.Api.{ChaosExperiment}
use k8s_chaos.Client.{M}
use k8s_chaos.Controller.Frame.{Keeps, if-Keeps, if-keeps}
use k8s_chaos.CommandLine.Terminal.{Terminal, or_fail}
use k8s_chaos.CommandLine.Delete.{confirms, question, remove, on_response, confirm, run_delete}

-- The calls that delete nothing.
pub record Looks {W : Type 0} (t : Terminal W) (P : W → Type 0) : Type 0 where
  pub connects : Keeps P (t.connect)
  pub gets : (namespace name : _) → Keeps P (t.get_experiment namespace name)
  pub prints : (m : _) → Keeps P (t.print m)
  pub scans : Keeps P (t.scan_line)

-- The environment in which a run from `w` reads its answer, and the answer.
abbrev pub asked : {W : Type 0} → Terminal W → (namespace name : String) → W → W
asked t namespace name w =
    (t.print (question namespace name) (t.get_experiment namespace name (t.connect w).1).1).1

abbrev pub response_of : {W : Type 0} → Terminal W → (namespace name : String) → W → Option String
response_of t namespace name w = (t.scan_line (asked t namespace name w)).0

abbrev pub IsYes : Option String → Type 0
IsYes response = (response ≡ some "y") ⊎ (response ≡ some "Y") ⊎ (response ≡ some "yes")

confirms-IsYes : (response : Option String) → confirms response ≡ true → IsYes response
unfolding confirms
confirms-IsYes none h = ground (arith, h)
confirms-IsYes (some s) h = elim (Bool-cases (s == "y")) [
  | inl e ↦ inl (ap some ((eq_iff s "y").0 e))
  | inr n ↦ elim (Bool-cases (s == "Y")) [
    | inl e ↦ inr (inl (ap some ((eq_iff s "Y").0 e)))
    | inr m ↦ inr (inr (ap some ((eq_iff s "yes").0 (ground (arith, h, n, m)))))
  ]
]

module _ {W : Type 0} (t : Terminal W) (P : W → Type 0) (looks : Looks t P) where
  or_fail-Keeps :
      {A B : Type 0} (format : String) (k : A → M W (Result B)) (answer : Result A)
      → ((a : A) → Keeps P (k a))
      → Keeps P (or_fail format k answer)
  or_fail-Keeps format k (ok a) h = h a
  or_fail-Keeps format k (err e) h = λ w p. p

  or_fail-keeps :
      {A B : Type 0} (format : String) (k : A → M W (Result B)) (answer : Result A) (w : W)
      → ((a : A) → P (k a w).1)
      → P w
      → P (or_fail format k answer w).1
  or_fail-keeps format k (ok a) w h p = h a
  or_fail-keeps format k (err e) w h p = p

  remove-Keeps :
      (name : String) (exp : ChaosExperiment)
      → Keeps P (t.delete_experiment exp)
      → Keeps P (remove t name exp)
  unfolding remove
  remove-Keeps name exp d w p =
      or_fail-Keeps _ _ (t.delete_experiment exp w).0 (λ u v q. looks.prints _ v q) _ (d w p)

  on_response-Keeps :
      (name : String) (exp : ChaosExperiment) (response : Option String)
      → (IsYes response → Keeps P (t.delete_experiment exp))
      → Keeps P (on_response t name exp response)
  unfolding on_response
  on_response-Keeps name exp response h =
      if-Keeps P (confirms response) _ _
        (λ e. remove-Keeps name exp (h (confirms-IsYes response e))) (λ e. looks.prints _)

  confirm-keeps :
      (namespace name : String) (force : Bool) (exp : ChaosExperiment) (w : W)
      → ((force ≡ true) ⊎ IsYes (t.scan_line (t.print (question namespace name) w).1).0
          → Keeps P (t.delete_experiment exp))
      → P w
      → P (confirm t namespace force name exp w).1
  unfolding confirm
  confirm-keeps namespace name true exp w d p = remove-Keeps name exp (d (inl refl)) w p
  confirm-keeps namespace name false exp w d p =
      let u = (t.print (question namespace name) w).1 in
      on_response-Keeps name exp (t.scan_line u).0 (λ yes. d (inr yes)) (t.scan_line u).1
        (looks.scans u (looks.prints (question namespace name) w p))

  found-keeps :
      (namespace name : String) (force : Bool) (found : Result ChaosExperiment) (w : W)
      → ((force ≡ true) ⊎ IsYes (t.scan_line (t.print (question namespace name) w).1).0
          → (exp : ChaosExperiment) → found ≡ ok exp
          → Keeps P (t.delete_experiment exp))
      → P w
      → P (or_fail "failed to get experiment: %w" (confirm t namespace force name) found w).1
  found-keeps namespace name force (ok exp) w d p =
      confirm-keeps namespace name force exp w (λ yes. d yes exp refl) p
  found-keeps namespace name force (err e) w d p = p

  -- The command `delete` deletes nothing but the experiment that this run reads under its name, and
  -- that only with the flag `force` or where the answer that this run reads is `y`, `Y` or `yes`: it
  -- keeps every predicate that its other calls keep, and that the deletion of that experiment keeps
  -- where there is this consent.
  pub run_delete-Keeps :
      (namespace name : String) (force : Bool) (w : W)
      → ((force ≡ true) ⊎ IsYes (response_of t namespace name w)
          → (exp : ChaosExperiment) → (t.get_experiment namespace name (t.connect w).1).0 ≡ ok exp
          → Keeps P (t.delete_experiment exp))
      → P w
      → P (run_delete t namespace force name w).1
  unfolding run_delete
  run_delete-Keeps namespace name force w d p =
      let connected = t.connect w in
      let found = t.get_experiment namespace name connected.1 in
      if-keeps P (namespace == "") _ _ w p (
        or_fail-keeps _ _ connected.0 connected.1
          (λ u.
            found-keeps namespace name force found.0 found.1 d
              (looks.gets namespace name connected.1 (looks.connects w p)))
          (looks.connects w p))
