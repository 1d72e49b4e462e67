-- ===== src/Controller/Handlers/Tracking.antt =====
-- internal/controller/chaosexperiment_controller.go: the list of affected pods behind the injections.
use k8s_chaos.Prelude.{
  ℕ, suc, ◌≤◌, ◌≡◌, refl, sym, ap, ◌∙◌, inl, inr, String, List, [], ◌∷◌, ◌++◌, Bool, true, false,
  Option, All, any, take, length, length-take, ◌==◌, Bool-cases, eq_refl, arith,
}
use mathlib.Core.List.{append_assoc, append-nil}
use k8s_chaos.Api.{ChaosExperiment, Pod}
use k8s_chaos.Client.{M}
use k8s_chaos.Webhook.Safety.{requested_count}
use k8s_chaos.Controller.Targets.{target_count}
use k8s_chaos.Controller.Ephemeral.{pod_ref, track_affected_pod}
use k8s_chaos.Controller.Handlers.Common.{Reconciler}
use k8s_chaos.Controller.Handlers.Steps.{Option-Ends}
use k8s_chaos.Controller.Handlers.Injection.{inject_each, inject_pods}

-- No reference stands twice in the list.
abbrev pub AreDistinct : List String → Type 0
AreDistinct [] = Unit
AreDistinct (x ∷ xs) = (any (λ e. x == e) xs ≡ false) × AreDistinct xs

-- The pod of the name is in the list, with some container.
abbrev pub IsListed : List String → String → Type 0
IsListed refs name =
    (pod : Pod) × (container : String) × (pod.name ≡ name)
    × (any (λ e. e == pod_ref pod.namespace pod.name container) refs ≡ true)

any-append :
    {A : Type 0} (p : A → Bool) (xs ys : List A) → any p xs ≡ true → any p (xs ++ ys) ≡ true
any-append p [] ys h = absurd (ground (arith, h))
any-append p (x ∷ xs) ys h = let ih = any-append p xs ys in ground (arith, h, ih)

any-last :
    {A : Type 0} (p : A → Bool) (xs : List A) (y : A) → p y ≡ true → any p (xs ++ y ∷ []) ≡ true
any-last p [] y h = ground (arith, h)
any-last p (x ∷ xs) y h = let ih = any-last p xs y h in ground (arith, ih)

none-last :
    {A : Type 0} (p : A → Bool) (xs : List A) (y : A)
    → any p xs ≡ false
    → p y ≡ false
    → any p (xs ++ y ∷ []) ≡ false
none-last p [] y h k = ground (arith, k)
none-last p (x ∷ xs) y h k = let ih = none-last p xs y in ground (arith, h, k, ih)

AreDistinct-last :
    (refs : List String) (ref : String)
    → AreDistinct refs
    → any (λ e. e == ref) refs ≡ false
    → AreDistinct (refs ++ ref ∷ [])
AreDistinct-last [] ref d h = (refl, tt)
AreDistinct-last (x ∷ xs) ref (d, ds) h = (
  none-last (λ e. x == e) xs ref d (ground (arith, h)),
  AreDistinct-last xs ref ds (ground (arith, h)),
)

-- What a loop of injections makes of the list: it grows at its end, and stays free of duplicates.
pub record Grows (before after : List String) : Type 0 where
  pub added : List String
  pub appended : after ≡ before ++ added
  pub distinct : AreDistinct before → AreDistinct after

track_affected_pod-Grows :
    (exp : ChaosExperiment) (namespace pod container : String)
    → Grows exp.status.affected_pods
        (track_affected_pod exp namespace pod container).status.affected_pods
unfolding track_affected_pod
track_affected_pod-Grows exp namespace pod container =
    let refs = exp.status.affected_pods in
    let ref = pod_ref namespace pod container in
    elim (Bool-cases (any (λ existing. existing == ref) refs)) [
      | inl b ↦
          rw (track_affected_pod, b)
            (record { added = []; appended = sym (append-nil refs); distinct = λ d. d })
      | inr b ↦
          rw (track_affected_pod, b)
            (record {
              added = ref ∷ [];
              appended = refl;
              distinct = λ d. AreDistinct-last refs ref d b;
            })
    ]

track_affected_pod-listed :
    (exp : ChaosExperiment) (namespace pod container : String)
    → any
        (λ e. e == pod_ref namespace pod container)
        (track_affected_pod exp namespace pod container).status.affected_pods
      ≡ true
unfolding track_affected_pod
track_affected_pod-listed exp namespace pod container =
    let refs = exp.status.affected_pods in
    let ref = pod_ref namespace pod container in
    elim (Bool-cases (any (λ existing. existing == ref) refs)) [
      | inl b ↦ rw (track_affected_pod, b) b
      | inr b ↦
          rw (track_affected_pod, b) (any-last (λ existing. existing == ref) refs ref (eq_refl ref))
    ]

Grows-trans : {a b c : List String} → Grows a b → Grows b c → Grows a c
Grows-trans {a} g k = record {
  added = g.added ++ k.added;
  appended = k.appended ∙ ap (λ xs. xs ++ k.added) g.appended ∙ append_assoc a g.added k.added;
  distinct = λ d. k.distinct (g.distinct d);
}

Grows-IsListed : {a b : List String} (name : String) → Grows a b → IsListed a name → IsListed b name
Grows-IsListed {a} name g (pod, container, e, l) =
    (pod, container, e, rw (g.appended) (any-append _ a g.added l))

-- What the loop has made of the list, and the pods that it counts as hit, which are `n` at most.
record Tracks (exp : ChaosExperiment) (n : ℕ) (result : ChaosExperiment × List String)
    : Type 0 where
  pub grows : Grows exp.status.affected_pods result.0.status.affected_pods
  pub listed : All (IsListed result.0.status.affected_pods) result.1
  pub bounded : length result.1 ≤ n

Tracks-missed :
    {exp : ChaosExperiment} {n : ℕ} {result : ChaosExperiment × List String}
    → Tracks exp n result
    → Tracks exp (suc n) result
Tracks-missed t = record { grows = t.grows; listed = t.listed; bounded = omega (arith, t.bounded) }

Tracks-hit :
    (exp : ChaosExperiment) (n : ℕ) (pod : Pod) (container : String)
    (result : ChaosExperiment × List String)
    → Tracks (track_affected_pod exp pod.namespace pod.name container) n result
    → Tracks exp (suc n) (result.0, pod.name ∷ result.1)
Tracks-hit exp n pod container result t =
    let seen = track_affected_pod-listed exp pod.namespace pod.name container in
    record {
      grows = Grows-trans (track_affected_pod-Grows exp pod.namespace pod.name container) t.grows;
      listed = (Grows-IsListed pod.name t.grows (pod, container, refl, seen), t.listed);
      bounded = omega (arith, t.bounded);
    }

module _ {W : Type 0} (r : Reconciler W) where
  inject_each-Tracks :
      (attack : Pod → M W (Option String)) (pods : List Pod) (exp : ChaosExperiment) (w : W)
      → Tracks exp (length pods) (inject_each r attack pods exp w).0
  unfolding inject_each
  inject_each-Tracks attack [] exp w = record {
    grows = record { added = []; appended = sym (append-nil _); distinct = λ d. d };
    listed = tt;
    bounded = omega arith;
  }
  inject_each-Tracks attack (x ∷ xs) exp w =
      Option-Ends (Tracks exp (suc (length xs))) (attack x w).0 _ _
        (λ w'. Tracks-missed (inject_each-Tracks attack xs exp w'))
        (λ name w'. Tracks-hit exp (length xs) x name _ (inject_each-Tracks attack xs _ w')) _

  -- The injections of a run add to the list of affected pods at its end and keep it free of duplicates,
  -- every pod that is counted as hit is in the list behind them, and no more pods are counted than the
  -- count of the spec asks for, which is one where it is not positive.
  pub inject_pods-tracks :
      (exp : ChaosExperiment) (attack : Pod → M W (Option String)) (eligible : List Pod) (w : W)
      → let (exp', hits) = (inject_pods r exp attack eligible w).0 in
        Grows exp.status.affected_pods exp'.status.affected_pods
        × All (IsListed exp'.status.affected_pods) hits
        × (length hits ≤ requested_count exp.spec.count)
  unfolding inject_pods target_count
  inject_pods-tracks exp attack eligible w =
      let (shuffled, w1) = r.client.shuffle eligible w in
      let n = target_count exp.spec shuffled in
      let t = inject_each-Tracks attack (take n shuffled) exp w1 in
      (t.grows, t.listed, omega (arith, t.bounded, length-take n shuffled))
