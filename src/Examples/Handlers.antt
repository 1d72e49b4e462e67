-- ===== src/Examples/Handlers.antt =====
-- The handlers' theorems at concrete inputs.
use k8s_chaos.Prelude.{ℕ, pos, ◌+◌, ◌≤◌, ◌∷◌, length, arith, ◌≡◌, refl, [], true}
use k8s_chaos.Api.{ChaosExperiment, Pod}
use k8s_chaos.Controller.Frame.{Harmless}
use k8s_chaos.Controller.Handlers.Pods.{kill_pod, attack_pods}
use k8s_chaos.Controller.Handlers.Bounded.{attack_pods-bounded}
use k8s_chaos.Webhook.Safety.{requested_count}
use k8s_chaos.Examples.World.{web, excluded, World, kube, reconciler, experiment, spec, cluster}

abbrev pub NoneDeleted : World → Type 0
NoneDeleted w = w.deleted ≡ []

pub none_deleted : (exp : ChaosExperiment) → Harmless kube NoneDeleted exp
none_deleted exp = record {
  quiet = record {
    now = λ w p. p;
    event = λ t r m w p. p;
    metric = λ name labels n w p. p;
    track = λ action up w p. p;
    get_namespace = λ name w p. p;
    list_pods = λ namespace selector w p. p;
  };
  update_status = λ e a w p. p;
}

abbrev pub rehearsal : ChaosExperiment
rehearsal = record experiment { spec = record spec { dry_run = true } }

abbrev deletions : World → ℕ
deletions w = length w.deleted

one_deletion :
    (p : Pod) (w : World) → deletions (kill_pod reconciler experiment p w).1 ≤ deletions w + 1
unfolding kill_pod
one_deletion p w = omega arith

attack_pods-bounded_example :
    deletions
      (attack_pods reconciler experiment
        (kill_pod reconciler experiment)
        (web ∷ excluded ∷ web ∷ [])
        cluster).1
    ≤ 0 + requested_count (pos 2)
attack_pods-bounded_example =
    attack_pods-bounded reconciler deletions experiment (kill_pod reconciler experiment)
      (web ∷ excluded ∷ web ∷ []) cluster refl one_deletion
