-- ===== src/Controller/Lifecycle/Undone.antt =====
-- internal/controller/chaosexperiment_controller.go, `checkExperimentLifecycle`: the end of an
-- experiment undoes what it did to nodes.
pub mod Completed
use k8s_chaos.Prelude.{
  ℕ, ◌≡◌, refl, sym, ◌∙◌, ap, ◌⊎◌, inl, inr, String, List, [], ◌∷◌, Bool, true, false, not, any,
  select, Option, none, some, All, Bool-cases, arith, ◌==◌, eq_iff, if◌then◌else◌,
}
use k8s_chaos.Go.{GoError, Result, ok, err}
use k8s_chaos.Api.{ChaosExperiment, Node, Taint}
use k8s_chaos.Client.{Client}
use k8s_chaos.Controller.Nodes.{has_taint, uncordon_node, untaint_node}
use k8s_chaos.Controller.Lifecycle.{
  uncordon_all, untaint_all, restore_cordoned, restore_tainted, release_containers,
  complete_experiment,
}

-- The answer to a read, with the error for a node that is not there.
abbrev pub answer : GoError → Option Node → Result Node
answer missing none = err missing
answer missing (some node) = ok node

-- The nodes that the API server holds, by their names: a read returns one, an update stores one, and
-- the clock and the status of an experiment are apart from them.
pub record HoldsNodes {W : Type 0} (c : Client W) (held : String → W → Option Node) : Type 0 where
  pub named : (name : _) (node : Node) (w : W) → held name w ≡ some node → node.name ≡ name
  pub missing : GoError
  pub reads : (name : _) (w : W) → c.get_node name w ≡ (answer missing (held name w), w)
  pub stores :
      (node : Node) (name : _) (w : W)
      → held name (c.update_node node w).1 ≡ (if node.name == name then some node else held name w)
  pub ticks : (name : _) (w : W) → held name (c.now w).1 ≡ held name w
  pub reports : (exp : _) (name : _) (w : W) → held name (c.update_status exp w).1 ≡ held name w

-- A node that is gone counts as schedulable, and as free of every taint.
abbrev pub is_schedulable : Option Node → Bool
is_schedulable none = true
is_schedulable (some node) = not node.unschedulable

abbrev pub is_untainted : String → String → Option Node → Bool
is_untainted key effect none = true
is_untainted key effect (some node) = not (any (has_taint key effect) node.taints)

any-select-not : (p : Taint → Bool) (ts : List Taint) → any p (select (λ t. not (p t)) ts) ≡ false
any-select-not p [] = refl
any-select-not p (t ∷ ts) = elim (Bool-cases (p t)) [
  | inl e ↦ rw e (any-select-not p ts)
  | inr e ↦ rw (e, e) (any-select-not p ts)
]

Held-cases : (o : Option Node) → (o ≡ none) ⊎ ((node : Node) × (o ≡ some node))
Held-cases none = inl refl
Held-cases (some node) = inr (node, refl)

-- The branches of `uncordonNode` and of `untaintNode`.
module _ {W : Type 0} (c : Client W) where
  uncordon_node-absent :
      (name : String) (e : GoError) (w : W)
      → c.get_node name w ≡ (err e, w)
      → (uncordon_node c name w).1 ≡ w
  unfolding uncordon_node
  uncordon_node-absent name e w g = ground (arith, g)

  uncordon_node-free :
      (name : String) (node : Node) (w : W)
      → c.get_node name w ≡ (ok node, w)
      → node.unschedulable ≡ false
      → (uncordon_node c name w).1 ≡ w
  unfolding uncordon_node
  uncordon_node-free name node w g h = ground (arith, g, h)

  uncordon_node-cordoned :
      (name : String) (node : Node) (w : W)
      → c.get_node name w ≡ (ok node, w)
      → node.unschedulable ≡ true
      → (uncordon_node c name w).1 ≡ (c.update_node (record node { unschedulable = false }) w).1
  unfolding uncordon_node
  uncordon_node-cordoned name node w g h = ground (arith, g, h)

  module _ (key effect : String) where
    untaint_node-absent :
        (name : String) (e : GoError) (w : W)
        → c.get_node name w ≡ (err e, w)
        → (untaint_node c name key effect w).1 ≡ w
    unfolding untaint_node
    untaint_node-absent name e w g = ground (arith, g)

    untaint_node-free :
        (name : String) (node : Node) (w : W)
        → name == "" ≡ false
        → c.get_node name w ≡ (ok node, w)
        → any (has_taint key effect) node.taints ≡ false
        → (untaint_node c name key effect w).1 ≡ w
    unfolding untaint_node
    untaint_node-free name node w n g h = ground (arith, n, g, h)

    untaint_node-tainted :
        (name : String) (node : Node) (w : W)
        → name == "" ≡ false
        → c.get_node name w ≡ (ok node, w)
        → any (has_taint key effect) node.taints ≡ true
        → (untaint_node c name key effect w).1
          ≡ (c.update_node
              (record node { taints = select (λ t. not (has_taint key effect t)) node.taints })
              w).1
    unfolding untaint_node
    untaint_node-tainted name node w n g h = ground (arith, n, g, h)

module _ {W : Type 0} (c : Client W) (held : String → W → Option Node)
    (holds : HoldsNodes c held) where
  -- The call leaves the store alone where the node of the name passes the test, or stores one of that
  -- name that does.
  Settles : (Option Node → Bool) → String → W → W → Type 0
  Settles test name w w' =
      ((w' ≡ w) × (test (held name w) ≡ true))
      ⊎ ((node : Node) × (node.name ≡ name)
          × (test (some node) ≡ true)
          × (w' ≡ (c.update_node node w).1))

  stored-passes :
      (test : Option Node → Bool) (node : Node) (name : String) (w : W)
      → test (some node) ≡ true
      → test (held name w) ≡ true ⊎ (node.name ≡ name)
      → test (held name (c.update_node node w).1) ≡ true
  stored-passes test node name w t h = elim (Bool-cases (node.name == name)) [
    | inl e ↦ rw (holds.stores node name w, e) t
    | inr e ↦ elim h [
      | inl old ↦ rw (holds.stores node name w, e) old
      | inr same ↦ let b = (eq_iff node.name name).1 same in ground (arith, b, e)
    ]
  ]

  Settles-passes :
      (test : Option Node → Bool) (name : String) (w w' : W)
      → Settles test name w w'
      → test (held name w') ≡ true
  unfolding Settles
  Settles-passes test name w w' (inl (e, h)) = rw e h
  Settles-passes test name w w' (inr (node, same, t, e)) =
      rw e (stored-passes test node name w t (inr same))

  Settles-stays :
      (test : Option Node → Bool) (name other : String) (w w' : W)
      → Settles test name w w'
      → test (held other w) ≡ true
      → test (held other w') ≡ true
  unfolding Settles
  Settles-stays test name other w w' (inl (e, h)) old = rw e old
  Settles-stays test name other w w' (inr (node, same, t, e)) old =
      rw e (stored-passes test node other w t (inl old))

  get_node-held :
      (name : String) (o : Option Node) (w : W)
      → held name w ≡ o
      → c.get_node name w ≡ (answer holds.missing o, w)
  get_node-held name o w e = holds.reads name w ∙ ap (λ p. (answer holds.missing p, w)) e

  uncordon_node-Settles :
      (name : String) (w : W) → Settles is_schedulable name w (uncordon_node c name w).1
  unfolding Settles
  uncordon_node-Settles name w = elim (Held-cases (held name w)) [
    | inl e ↦
        inl (uncordon_node-absent c name holds.missing w (get_node-held name none w e), rw e refl)
    | inr (node, e) ↦
        let g = get_node-held name (some node) w e in
        elim (Bool-cases node.unschedulable) [
          | inr free ↦ inl (uncordon_node-free c name node w g free, rw (e, free) refl)
          | inl cordoned ↦ inr (
            record node { unschedulable = false },
            holds.named name node w e,
            refl,
            uncordon_node-cordoned c name node w g cordoned,
          )
        ]
  ]

  untaint_node-Settles :
      (key effect name : String) (w : W)
      → name == "" ≡ false
      → Settles (is_untainted key effect) name w (untaint_node c name key effect w).1
  unfolding Settles
  untaint_node-Settles key effect name w n = elim (Held-cases (held name w)) [
    | inl e ↦ inl (
      untaint_node-absent c key effect name holds.missing w (get_node-held name none w e),
      rw e refl,
    )
    | inr (node, e) ↦
        let g = get_node-held name (some node) w e in
        elim (Bool-cases (any (has_taint key effect) node.taints)) [
          | inr free ↦ inl (untaint_node-free c key effect name node w n g free, rw (e, free) refl)
          | inl tainted ↦ inr (
            record node { taints = select (λ t. not (has_taint key effect t)) node.taints },
            holds.named name node w e,
            rw (any-select-not (has_taint key effect) node.taints) refl,
            untaint_node-tainted c key effect name node w n g tainted,
          )
        ]
  ]

  uncordon_all-stays :
      (names : List String) (other : String) (w : W)
      → is_schedulable (held other w) ≡ true
      → is_schedulable (held other (uncordon_all c names w).1) ≡ true
  unfolding uncordon_all
  uncordon_all-stays [] other w h = h
  uncordon_all-stays (n ∷ ns) other w h =
      uncordon_all-stays ns other _
        (Settles-stays is_schedulable n other w _ (uncordon_node-Settles n w) h)

  pub uncordon_all-passes :
      (names : List String) (w : W)
      → All (λ n. is_schedulable (held n (uncordon_all c names w).1) ≡ true) names
  unfolding uncordon_all
  uncordon_all-passes [] w = tt
  uncordon_all-passes (n ∷ ns) w = (
    uncordon_all-stays ns n _ (Settles-passes is_schedulable n w _ (uncordon_node-Settles n w)),
    uncordon_all-passes ns _,
  )

  module _ (key effect : String) where
    untaint_all-stays :
        (names : List String) (other : String) (w : W)
        → All (λ n. n == "" ≡ false) names
        → is_untainted key effect (held other w) ≡ true
        → is_untainted key effect (held other (untaint_all c key effect names w).1) ≡ true
    unfolding untaint_all
    untaint_all-stays [] other w named h = h
    untaint_all-stays (n ∷ ns) other w (e, named) h = untaint_all-stays ns other _ named (
        Settles-stays (is_untainted key effect) n other w _ (untaint_node-Settles key effect n w e)
          h)

    pub untaint_all-passes :
        (names : List String) (w : W)
        → All (λ n. n == "" ≡ false) names
        → All
            (λ n. is_untainted key effect (held n (untaint_all c key effect names w).1) ≡ true)
            names
    unfolding untaint_all
    untaint_all-passes [] w named = tt
    untaint_all-passes (n ∷ ns) w (e, named) = (
      untaint_all-stays ns n _ named
          (Settles-passes (is_untainted key effect) n w _ (untaint_node-Settles key effect n w e)),
      untaint_all-passes ns _ named,
    )
