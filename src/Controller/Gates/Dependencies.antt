-- ===== src/Controller/Gates/Dependencies.antt =====
-- internal/controller/chaosexperiment_controller.go, `checkDependencies`: when an experiment passes.
use k8s_chaos.Prelude.{
  ◌≡◌, refl, ◌↔◌, ◌⊎◌, String, List, [], ◌∷◌, true, All, inl, inr, Bool-cases, eq_iff, ◌==◌, arith,
}
use k8s_chaos.Go.{Result, ok, err, Result-cases}
use k8s_chaos.Api.{ChaosExperiment}
use k8s_chaos.Client.{Client}
use k8s_chaos.Controller.Gates.{Gate, check_each_dependency, check_dependencies}

-- The experiment was found, and has completed.
abbrev pub IsCompleted : Result ChaosExperiment → Type 0
IsCompleted (ok d) = d.status.phase ≡ "Completed"
IsCompleted (err e) = ⊥

abbrev pub Passes : Result Gate → Type 0
Passes (ok (met, _)) = met ≡ true
Passes (err e) = ⊥

IsCompleted-cases :
    (r : Result ChaosExperiment)
    → ((d : ChaosExperiment) × (r ≡ ok d) × (d.status.phase ≡ "Completed")) ⊎ (¬ IsCompleted r)
IsCompleted-cases (err e) = inr (λ p. p)
IsCompleted-cases (ok d) = elim (Bool-cases (d.status.phase == "Completed")) [
  | inl t ↦ inl (d, refl, (eq_iff d.status.phase "Completed").0 t)
  | inr t ↦ inr (λ p. ground (arith, p, t, eq_iff d.status.phase "Completed"))
]

module _ {W : Type 0} (c : Client W) where
  open c use {get_experiment}

  module _ (store : String → String → Result ChaosExperiment) (w : W)
      (reads : (namespace name : String)
        → get_experiment namespace name w ≡ (store namespace name, w)) where
    check_each_dependency-found :
        (exp d : ChaosExperiment) (dep : String) (deps : List String)
        → store exp.namespace dep ≡ ok d
        → d.status.phase ≡ "Completed"
        → check_each_dependency c exp (dep ∷ deps) w ≡ check_each_dependency c exp deps w
    unfolding check_each_dependency
    check_each_dependency-found exp d dep deps e t =
        let r = reads exp.namespace dep in
        ground (arith, e, r, t, eq_iff d.status.phase "Completed")

    check_each_dependency-blocked :
        (exp : ChaosExperiment) (dep : String) (deps : List String)
        → ¬ IsCompleted (store exp.namespace dep)
        → (¬ Passes (check_each_dependency c exp (dep ∷ deps) w).0)
          × ((check_each_dependency c exp (dep ∷ deps) w).1 ≡ w)
    unfolding check_each_dependency
    check_each_dependency-blocked exp dep deps n =
        let r = reads exp.namespace dep in
        elim (Result-cases (store exp.namespace dep)) [
          | inl (d, e) ↦
              let n' : ¬ (d.status.phase ≡ "Completed") = λ q. n (rw e q) in
              ground (arith, e, r, n', eq_iff d.status.phase "Completed")
          | inr (f, e) ↦ ground (arith, e, r)
        ]

    check_each_dependency_iff :
        (exp : ChaosExperiment) (deps : List String)
        → (Passes (check_each_dependency c exp deps w).0
            ↔ All (λ dep. IsCompleted (store exp.namespace dep)) deps)
          × ((check_each_dependency c exp deps w).1 ≡ w)
    unfolding check_each_dependency
    check_each_dependency_iff exp [] = ((λ _. tt, λ _. refl), refl)
    check_each_dependency_iff exp (dep ∷ deps) =
        let ih = check_each_dependency_iff exp deps in
        elim (IsCompleted-cases (store exp.namespace dep)) [
          | inl (d, e, t) ↦
              rw (check_each_dependency-found exp d dep deps e t)
                ((λ p. (rw e t, ih.0.0 p), λ (_, ps). ih.0.1 ps), ih.1)
          | inr n ↦
              let b = check_each_dependency-blocked exp dep deps n in
              ((λ p. elim (b.0 p) [ ], λ (p, _). elim (n p) [ ]), b.1)
        ]

    -- Where the reads of experiments return what a store holds, and change nothing, an experiment passes
    -- exactly when the store holds each of its dependencies, in its own namespace, in the phase
    -- Completed; and the check changes nothing.
    pub check_dependencies_iff :
        (exp : ChaosExperiment)
        → (Passes (check_dependencies c exp w).0
            ↔ All (λ dep. IsCompleted (store exp.namespace dep)) exp.spec.depends_on)
          × ((check_dependencies c exp w).1 ≡ w)
    unfolding check_dependencies
    check_dependencies_iff exp = check_each_dependency_iff exp exp.spec.depends_on
