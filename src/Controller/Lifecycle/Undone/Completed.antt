-- ===== src/Controller/Lifecycle/Undone/Completed.antt =====
-- internal/controller/chaosexperiment_controller.go, `checkExperimentLifecycle`: the nodes of an experiment
-- that is completed.
use k8s_chaos.Prelude.{
  ℕ, ◌≡◌, refl, ap, ◌∙◌, ◌⊎◌, inl, inr, String, List, [], ◌∷◌, Bool, true, false, Option, All, ◌==◌,
  if◌then◌else◌,
}
use k8s_chaos.Api.{ChaosExperiment, Node}
use k8s_chaos.Client.{M, ◌>>=◌, Client}
use k8s_chaos.Controller.Lifecycle.{
  uncordon_all, untaint_all, restore_cordoned, restore_tainted, release_containers,
  uses_ephemeral_containers, complete_experiment,
}
use k8s_chaos.Controller.Lifecycle.Undone.{
  HoldsNodes, is_schedulable, is_untainted, uncordon_all-passes, untaint_all-passes,
}

-- The nodes that the status records, and what a node is once the experiment is undone.
abbrev pub recorded : ChaosExperiment → List String
recorded exp =
    if exp.spec.action == "node-drain" then exp.status.cordoned_nodes else exp.status.tainted_nodes

abbrev pub is_restored : ChaosExperiment → Option Node → Bool
is_restored exp node =
    if exp.spec.action == "node-drain"
    then is_schedulable node
    else is_untainted exp.spec.taint_key exp.spec.taint_effect node

-- The status without the recorded nodes.
abbrev without_cordoned : ChaosExperiment → ChaosExperiment
without_cordoned exp = record exp { status = record (exp.status) { cordoned_nodes = [] } }

abbrev without_tainted : ChaosExperiment → ChaosExperiment
without_tainted exp = record exp { status = record (exp.status) { tainted_nodes = [] } }

module _ {W : Type 0} (c : Client W) where
  -- The three loops that `complete_experiment` begins with.
  undo : ChaosExperiment → M W ChaosExperiment
  undo exp = do
    exp1 ← restore_cordoned c exp
    exp2 ← restore_tainted c exp1
    release_containers c exp2

  drained :
      (exp : ChaosExperiment) (w : W)
      → exp.spec.action == "node-drain" ≡ true
      → restore_cordoned c exp w
        ≡ (without_cordoned exp, (uncordon_all c exp.status.cordoned_nodes w).1)
  unfolding restore_cordoned
  drained exp w h = rw h refl

  not_drained :
      (exp : ChaosExperiment) (w : W)
      → exp.spec.action == "node-drain" ≡ false
      → restore_cordoned c exp w ≡ (exp, w)
  unfolding restore_cordoned
  not_drained exp w h = rw h refl

  tainted :
      (exp : ChaosExperiment) (w : W)
      → exp.spec.action == "node-taint" ≡ true
      → restore_tainted c exp w ≡ (
        without_tainted exp,
        (untaint_all c exp.spec.taint_key exp.spec.taint_effect exp.status.tainted_nodes w).1,
      )
  unfolding restore_tainted
  tainted exp w h = rw h refl

  not_tainted :
      (exp : ChaosExperiment) (w : W)
      → exp.spec.action == "node-taint" ≡ false
      → restore_tainted c exp w ≡ (exp, w)
  unfolding restore_tainted
  not_tainted exp w h = rw h refl

  not_released :
      (exp : ChaosExperiment) (w : W)
      → uses_ephemeral_containers exp.spec.action ≡ false
      → release_containers c exp w ≡ (exp, w)
  unfolding release_containers
  not_released exp w h = rw h refl

  undo-drained :
      (exp : ChaosExperiment) (w : W)
      → exp.spec.action ≡ "node-drain"
      → undo exp w ≡ (without_cordoned exp, (uncordon_all c exp.status.cordoned_nodes w).1)
  unfolding undo
  undo-drained exp w h =
      ap (λ p. let q = restore_tainted c p.0 p.1 in release_containers c q.0 q.1)
        (drained exp w (ap (λ a. a == "node-drain") h))
      ∙ ap (λ q. release_containers c q.0 q.1)
          (not_tainted (without_cordoned exp) _ (ap (λ a. a == "node-taint") h))
      ∙ not_released (without_cordoned exp) _ (ap uses_ephemeral_containers h)

  undo-tainted :
      (exp : ChaosExperiment) (w : W)
      → exp.spec.action ≡ "node-taint"
      → undo exp w ≡ (
        without_tainted exp,
        (untaint_all c exp.spec.taint_key exp.spec.taint_effect exp.status.tainted_nodes w).1,
      )
  unfolding undo
  undo-tainted exp w h =
      ap (λ p. let q = restore_tainted c p.0 p.1 in release_containers c q.0 q.1)
        (not_drained exp w (ap (λ a. a == "node-drain") h))
      ∙ ap (λ q. release_containers c q.0 q.1) (tainted exp w (ap (λ a. a == "node-taint") h))
      ∙ not_released (without_tainted exp) _ (ap uses_ephemeral_containers h)

module _ {W : Type 0} (c : Client W) (held : String → W → Option Node)
    (holds : HoldsNodes c held) where
  -- What comes after the loops leaves the nodes alone, and the recorded ones as the loops left them.
  undo-held :
      (exp : ChaosExperiment) (duration : ℕ) (w : W) (name : String)
      → held name (complete_experiment c exp duration w).1 ≡ held name (undo c exp w).1
  unfolding complete_experiment undo
  undo-held exp duration w name = holds.reports _ name _ ∙ holds.ticks name _

  undo-recorded :
      (exp : ChaosExperiment) (duration : ℕ) (w : W)
      → recorded (complete_experiment c exp duration w).0.1 ≡ recorded (undo c exp w).0
  unfolding complete_experiment undo
  undo-recorded exp duration w = refl

  held-All :
      (test : Option Node → Bool) (names : List String) (w w' : W)
      → ((n : String) → held n w' ≡ held n w)
      → All (λ n. test (held n w) ≡ true) names
      → All (λ n. test (held n w') ≡ true) names
  held-All test [] w w' h a = tt
  held-All test (n ∷ ns) w w' h (p, ps) = (rw (h n) p, held-All test ns w w' h ps)

  -- Where the API server holds the nodes and stores what it is given, and the recorded names are not empty,
  -- the completion of a `node-drain` or a `node-taint` leaves every node that the status records
  -- schedulable, or without the taint of the experiment, unless it is gone, and records none of them any
  -- longer.
  pub complete_experiment-restores :
      (exp : ChaosExperiment) (duration : ℕ) (w : W)
      → (exp.spec.action ≡ "node-drain") ⊎ (exp.spec.action ≡ "node-taint")
      → All (λ n. n == "" ≡ false) exp.status.tainted_nodes
      → All
          (λ n. is_restored exp (held n (complete_experiment c exp duration w).1) ≡ true)
          (recorded exp)
        × (recorded (complete_experiment c exp duration w).0.1 ≡ [])
  complete_experiment-restores exp duration w (inl h) named =
      let t = ap (λ a. a == "node-drain") h in
      let done = undo-drained c exp w h in
      (
        rw t (
            held-All is_schedulable exp.status.cordoned_nodes
              (uncordon_all c exp.status.cordoned_nodes w).1
              (complete_experiment c exp duration w).1
              (λ n. undo-held exp duration w n ∙ ap (λ p. held n p.1) done)
              (uncordon_all-passes c held holds exp.status.cordoned_nodes w)),
        undo-recorded exp duration w ∙ ap (λ p. recorded p.0) done ∙ rw t refl,
      )
  complete_experiment-restores exp duration w (inr h) named =
      let t = ap (λ a. a == "node-drain") h in
      let done = undo-tainted c exp w h in
      let key : String = exp.spec.taint_key in
      let effect : String = exp.spec.taint_effect in
      (
        rw t (
            held-All (is_untainted key effect) exp.status.tainted_nodes
              (untaint_all c key effect exp.status.tainted_nodes w).1
              (complete_experiment c exp duration w).1
              (λ n. undo-held exp duration w n ∙ ap (λ p. held n p.1) done)
              (untaint_all-passes c held holds key effect exp.status.tainted_nodes w named)),
        undo-recorded exp duration w ∙ ap (λ p. recorded p.0) done ∙ rw t refl,
      )
