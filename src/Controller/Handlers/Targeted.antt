-- ===== src/Controller/Handlers/Targeted.antt =====
-- internal/controller/chaosexperiment_controller.go: which pods the pod handlers attack.
use k8s_chaos.Prelude.{ℕ, zero, suc, ◌≡◌, refl, String, List, [], ◌∷◌, Option, All, take, arith}
use k8s_chaos.Go.{GoError, Message, Result, ok, err}
use k8s_chaos.Api.{ChaosExperiment, ChaosExperimentHistory, Pod, ErrorDetails, ResourceReference}
use k8s_chaos.Client.{M, Task}
use k8s_chaos.History.Record.{create_history_record, generate_short_uid}
use k8s_chaos.Controller.Frame.{Keeps, Harmless, if-keeps}
use k8s_chaos.Controller.Failure.{handle_experiment_success}
use k8s_chaos.Controller.Machine.{success_status-After}
use k8s_chaos.Controller.Targets.{get_eligible_pods, target_count}
use k8s_chaos.Controller.Targets.Eligible.{IsTarget, get_eligible_pods-IsTarget}
use k8s_chaos.Controller.Handlers.Common.{
  Reconciler, with_run, attack_each, record_run, finish_pods,
}
use k8s_chaos.Controller.Handlers.Pods.{
  count_error, kill_pod, kill_pods, attack_pods, handle_pod_kill,
}
use k8s_chaos.Controller.Handlers.Injection.{on_found, on_eligible_pods}
use k8s_chaos.Controller.Outcome.{Handled}
use k8s_chaos.Controller.Handlers.DryRun.{
  get_eligible_pods-keeps, eligible_failure-Keeps, nothing_found-Keeps, preview-Keeps,
  handle_experiment_failure-Keeps,
}

pub All-take : {A : Type 0} (P : A → Type 0) (n : ℕ) (xs : List A) → All P xs → All P (take n xs)
All-take P zero xs h = tt
All-take P (suc n) [] h = tt
All-take P (suc n) (x ∷ xs) (h, hs) = (h, All-take P n xs hs)

module _ {W : Type 0} (r : Reconciler W) (P : W → Type 0) (exp : ChaosExperiment)
    (h : Harmless r.client P exp)
    (records : (d : ChaosExperimentHistory) → Keeps P (r.client.create_history d))
    (spawns : (t : Task) → Keeps P (r.client.spawn t)) where
  pub attack_each-keeps :
      (attack : Pod → M W (Option String)) (pods : List Pod) (w : W)
      → ((pod : Pod) → IsTarget pod → Keeps P (attack pod))
      → All IsTarget pods
      → P w
      → P (attack_each r attack pods w).1
  unfolding attack_each
  attack_each-keeps attack [] w k ts p = p
  attack_each-keeps attack (x ∷ xs) w k (t, ts) p =
      attack_each-keeps attack xs (attack x w).1 k ts (k x t w p)

  handle_experiment_success-Keeps :
      (exp' : ChaosExperiment)
      → exp'.spec ≡ exp.spec
      → Keeps P (handle_experiment_success r.client exp')
  unfolding handle_experiment_success
  handle_experiment_success-Keeps exp' k w p =
      let u = h.update_status _ (success_status-After exp exp' k) w p in
      grind (arith, u, h.quiet.event)

  create_history_record-keeps :
      (e : ChaosExperiment) (status : String) (affected : List ResourceReference) (start : ℕ)
      (details : Option ErrorDetails) (w : W)
      → P w
      → P
          (create_history_record r.client r.formats r.history_config e status affected start details
            w).1
  unfolding create_history_record generate_short_uid
  create_history_record-keeps e status affected start details w p =
      grind (arith, h.quiet.now, h.quiet.metric, records, spawns)

  pub record_run-keeps :
      (e : ChaosExperiment) (action status : String) (affected : List ResourceReference) (start : ℕ)
      (details : Option ErrorDetails) (w : W)
      → P w
      → P (record_run r e action status affected start details w).1
  unfolding record_run
  record_run-keeps e action status affected start details w p =
      grind (arith, h.quiet.now, h.quiet.metric, create_history_record-keeps)

  pub finish_pods-keeps :
      (action what : String) (summary : List String → Message) (verb : String) (started : ℕ)
      (hits : List String) (w : W)
      → P w
      → P (finish_pods r exp action what summary verb started hits w).1
  unfolding finish_pods
  finish_pods-keeps action what summary verb started [] w p =
      handle_experiment_failure-Keeps r P exp h _ w p
  finish_pods-keeps action what summary verb started (x ∷ xs) w p =
      let (t, w1) = r.client.now w in
      let s =
        handle_experiment_success-Keeps (with_run exp t (summary (x ∷ xs))) refl w1
          (h.quiet.now w p) in
      grind (arith, s, record_run-keeps)

  module _ (shuffles : (pods : List Pod) → Keeps P (r.client.shuffle pods))
      (rearranges : (Q : Pod → Type 0) (pods : List Pod) (w : W)
        → All Q pods
        → All Q (r.client.shuffle pods w).0) where
    pub attack_pods-keeps :
        (attack : Pod → M W (Option String)) (pods : List Pod) (w : W)
        → ((pod : Pod) → IsTarget pod → Keeps P (attack pod))
        → All IsTarget pods
        → P w
        → P (attack_pods r exp attack pods w).1
    unfolding attack_pods
    attack_pods-keeps attack pods w k ts p =
        let (shuffled, w1) = r.client.shuffle pods w in
        attack_each-keeps attack (take (target_count exp.spec shuffled) shuffled) w1 k
          (All-take IsTarget _ shuffled (rearranges IsTarget pods w ts)) (shuffles pods w p)

    pub kill_pod-Keeps :
        ((pod : Pod) → IsTarget pod → Keeps P (r.client.delete_pod pod))
        → (pod : Pod) → IsTarget pod
        → Keeps P (kill_pod r exp pod)
    unfolding kill_pod count_error
    kill_pod-Keeps deletes pod t w p =
        let d = deletes pod t in grind (arith, h.quiet.event, h.quiet.metric, d)

    on_found-Keeps :
        (on_error : GoError → M W Handled) (nothing action_type : String)
        (attack : List Pod → M W Handled) (found : Result (List Pod))
        → ((pods : List Pod) → found ≡ ok pods → All IsTarget pods)
        → ((e : GoError) → Keeps P (on_error e))
        → ((pods : List Pod) → All IsTarget pods → Keeps P (attack pods))
        → Keeps P (on_found r exp on_error nothing action_type attack found)
    unfolding on_found
    on_found-Keeps on_error nothing action_type attack (err e) t k a w p = k e w p
    on_found-Keeps on_error nothing action_type attack (ok []) t k a w p =
        nothing_found-Keeps r P exp h nothing w p
    on_found-Keeps on_error nothing action_type attack (ok (x ∷ xs)) t k a w p =
        if-keeps P exp.spec.dry_run _ _ w (preview-Keeps r P exp h (x ∷ xs) action_type w p)
          (a (x ∷ xs) (t (x ∷ xs) refl) w p)

    -- Only eligible pods are handed to the attack.
    pub on_eligible_pods-Keeps :
        (on_error : GoError → M W Handled) (nothing action_type : String)
        (attack : List Pod → M W Handled)
        → ((e : GoError) → Keeps P (on_error e))
        → ((pods : List Pod) → All IsTarget pods → Keeps P (attack pods))
        → Keeps P (on_eligible_pods r exp on_error nothing action_type attack)
    unfolding on_eligible_pods
    on_eligible_pods-Keeps on_error nothing action_type attack k a w p =
        let (found, w1) = get_eligible_pods r.client exp w in
        on_found-Keeps on_error nothing action_type attack found
          (λ pods e. get_eligible_pods-IsTarget r.client exp pods w e) k a w1
          (get_eligible_pods-keeps r P exp h w p)

    -- A pod kill keeps whatever its reads, status updates, events, metrics and records keep, and the
    -- deletions of those pods that lack the exclusion label and are not being deleted: it deletes no
    -- other pod, where a shuffle rearranges the pods.
    pub handle_pod_kill-keeps :
        (deletes : (pod : Pod) → IsTarget pod → Keeps P (r.client.delete_pod pod))
        → (w : W) → P w
        → P (handle_pod_kill r exp w).1
    unfolding handle_pod_kill kill_pods
    handle_pod_kill-keeps deletes w p = search (
      h.quiet.track,
      h.quiet.now,
      on_eligible_pods-Keeps,
      eligible_failure-Keeps r P exp h,
      finish_pods-keeps,
      attack_pods-keeps,
      kill_pod-Keeps deletes,
    )
