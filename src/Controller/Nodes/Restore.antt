-- ===== src/Controller/Nodes/Restore.antt =====
-- internal/controller/chaosexperiment_controller.go: `untaintNode` and `uncordonNode` undo `taintNode`
-- and `cordonNode`.
use k8s_chaos.Prelude.{
  ◌≡◌, refl, String, List, [], ◌∷◌, ◌++◌, Bool, true, false, not, any, select, ◌==◌, inl, inr,
  Bool-cases, ap, sym, ◌∙◌, arith, eq_refl,
}
use k8s_chaos.Go.{ok}
use k8s_chaos.Api.{Node, Taint}
use k8s_chaos.Client.{Client}
use k8s_chaos.Controller.Nodes.{has_taint, cordon_node, uncordon_node, taint_node, untaint_node}

-- The API server returns the node that was stored last.
pub record KeepsNodes {W : Type 0} (c : Client W) : Type 0 where
  pub get-update :
      (node : Node) (w : W)
      → (c.update_node node w).0 ≡ ok tt
      → c.get_node node.name (c.update_node node w).1 ≡ (ok node, (c.update_node node w).1)

any-append : (p : Taint → Bool) (ts us : List Taint) → any p us ≡ true → any p (ts ++ us) ≡ true
any-append p [] us h = h
any-append p (t ∷ ts) us h = ground (arith, any-append p ts us h)

select-added :
    (p : Taint → Bool) (t : Taint) (ts : List Taint)
    → p t ≡ true
    → any p ts ≡ false
    → select (λ s. not (p s)) (ts ++ t ∷ []) ≡ ts
select-added p t [] h n = rw h refl
select-added p t (s ∷ ts) h n = elim (Bool-cases (p s)) [
  | inl e ↦ ground (arith, e, n)
  | inr e ↦ rw e (ap (λ r. s ∷ r) (select-added p t ts h (ground (arith, e, n))))
]

subst-last : {A W : Type 0} (f : W → A × W) (a : A) {u v : W} → f u ≡ (a, u) → u ≡ v → f v ≡ (a, v)
subst-last f a h e = rw (sym e) h

untaint_node-found :
    {W : Type 0} (c : Client W) (name key effect : String) (node : Node) (w : W)
    → name == "" ≡ false
    → c.get_node name w ≡ (ok node, w)
    → any (has_taint key effect) node.taints ≡ true
    → (untaint_node c name key effect w).1
      ≡ (c.update_node
          (record node { taints = select (λ t. not (has_taint key effect t)) node.taints })
          w).1
unfolding untaint_node
untaint_node-found c name key effect node w named g found = ground (arith, named, g, found)

module _ {W : Type 0} (c : Client W) (keeps : KeepsNodes c) where
  -- Where the API server returns the node that was stored last, a node with a name and without the
  -- taint that was tainted with success is, when it is untainted, stored again as it was.
  pub untaint_node-taint_node :
      (node : Node) (key value effect : String) (w w' : W)
      → node.name == "" ≡ false
      → any (has_taint key effect) node.taints ≡ false
      → taint_node c node key value effect w ≡ (ok false, w')
      → (untaint_node c node.name key effect w').1 ≡ (c.update_node node w').1
  unfolding taint_node untaint_node
  untaint_node-taint_node node key value effect w w' named absent h =
      let taint : Taint = record { key = key; value = value; effect = effect } in
      let p = has_taint key effect in
      let tainted = record node { taints = node.taints ++ taint ∷ [] } in
      let same : p taint ≡ true = rw (eq_refl key, eq_refl effect) refl in
      let (updated, w1) = c.update_node tainted w in
      let ran : (updated ≡ ok tt) × (w1 ≡ w') = ground (arith, h, absent) in
      let g = keeps.get-update tainted w ran.0 in
      let back = select-added p taint node.taints same absent in
      let found = any-append p node.taints (taint ∷ []) (rw same refl) in
      untaint_node-found c node.name key effect tainted w' named
        (subst-last (c.get_node node.name) (ok tainted) g ran.1) found
      ∙ ap (λ ts. (c.update_node (record node { taints = ts }) w').1) back

  -- Where the API server returns the node that was stored last, a schedulable node that was cordoned
  -- with success is, when it is uncordoned, stored again as it was.
  pub uncordon_node-cordon_node :
      (node : Node) (w w' : W)
      → node.unschedulable ≡ false
      → cordon_node c node w ≡ (ok false, w')
      → (uncordon_node c node.name w').1 ≡ (c.update_node node w').1
  unfolding cordon_node uncordon_node
  uncordon_node-cordon_node node w w' s h =
      let tainted = record node { unschedulable = true } in
      let g = keeps.get-update tainted w in ground (arith, h, g, s)
