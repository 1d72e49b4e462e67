-- ===== src/Examples/Reconciliations.antt =====
-- The theorems on whole reconciliations at concrete inputs.
use k8s_chaos.Prelude.{ℕ, ◌+◌, refl, String, List, [], ◌∷◌, All, Bool-cases, inl, inr, arith, ◌==◌}
use k8s_chaos.Go.{Result, err, api, other_reason}
use k8s_chaos.Api.{ChaosExperiment}
use k8s_chaos.Controller.Machine.{Reached, here}
use k8s_chaos.Controller.Ephemeral.Injection.{update_pod-Keeps}
use k8s_chaos.Controller.Reconcile.{reconcile}
use k8s_chaos.Controller.Reconcile.Storing.{Env, reconcile-Keeps}
use k8s_chaos.Controller.Reconcile.Rounds.{Finds, Bounded, rounds, rounds-Bounded}
use k8s_chaos.Examples.World.{
  World, kube, reconciler, calendar, experiment, spec, cluster, find_experiment,
}

-- An experiment that waits for no other, stored alone.
abbrev solo : ChaosExperiment
solo = record experiment { spec = record spec { depends_on = [] } }

abbrev arena : World
arena = record cluster { experiments = solo ∷ [] }

abbrev no_cron : String → Result (ℕ → ℕ)
no_cron text = err (api other_reason "no cron")

-- Every stored experiment has been reached from the first one.
abbrev AllReached : World → Type 0
AllReached w = All (Reached solo) w.experiments

env : Env reconciler AllReached solo
env = record {
  storing = record {
    quiet = record {
      now = λ w p. p;
      event = λ t r m w p. p;
      metric = λ name labels n w p. p;
      track = λ action up w p. p;
      get_namespace = λ name w p. p;
      list_pods = λ namespace selector w p. p;
    };
    stores = λ e reached w p. (reached, p);
    gets = λ namespace name w p. p;
  };
  records = λ d w p. p;
  spawns = λ t w p. p;
  shuffles = λ pods w p. p;
  rearranges = λ Q pods w h. h;
  sleeps = λ d w p. p;
  reads = λ namespace name w p. p;
  attacks = λ pod t. record {
    injects =
        update_pod-Keeps kube AllReached (λ namespace name w p. p) (λ q w p. p) (λ d w p. p)
          reconciler.sprintf pod;
    execs = λ container command w p. p;
    reads = λ namespace name w p. p;
    waits = λ d w p. p;
  };
  deletes = λ pod t w p. p;
  nodes = record {
    lists = λ selector w p. p;
    shuffles = λ nodes w p. p;
    reads = λ name w p. p;
    updates = λ node w p. p;
    lists_pods = λ name w p. p;
    evicts = λ pod h w p. p;
    creates = λ pod w p. p;
  };
}

first : Reached solo solo
first = record { moves = here; same = refl }

reconcile-Keeps_example :
    AllReached (reconcile reconciler calendar no_cron "default" "kill-web" arena).1
reconcile-Keeps_example =
    reconcile-Keeps reconciler calendar no_cron AllReached solo env "default" "kill-web" arena arena
      refl (first, tt)

find_experiment-Finds :
    (name : String) (stored : List ChaosExperiment)
    → All (Reached solo) stored
    → Finds solo (find_experiment name stored)
find_experiment-Finds name [] h = tt
find_experiment-Finds name (e ∷ es) (h, hs) = elim (Bool-cases (e.name == name)) [
  | inl b ↦ rw b h
  | inr b ↦ rw b (find_experiment-Finds name es hs)
]

-- An hour passes before each of two reconciliations.
abbrev an_hour_later : World → World
an_hour_later w = record w { time = w.time + 3600000000000 }

rounds-Bounded_example :
    Bounded solo
      (kube.get_experiment "default" "kill-web" (
        rounds reconciler calendar no_cron "default" "kill-web"
          (an_hour_later ∷ an_hour_later ∷ [])
          arena)).0
rounds-Bounded_example =
    rounds-Bounded reconciler calendar no_cron "default" "kill-web" AllReached solo env
      (λ w p. find_experiment-Finds "kill-web" w.experiments p) (an_hour_later ∷ an_hour_later ∷ [])
      arena (λ v p. p, (λ v p. p, tt)) (ground arith) (first, tt)
