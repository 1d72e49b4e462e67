-- ===== src/Controller/Reconcile/Rounds.antt =====
-- internal/controller/chaosexperiment_controller.go: a row of reconciliations of one experiment, and
-- whatever else happens between them.
use k8s_chaos.Prelude.{ℕ, ◌≤◌, ◌≡◌, String, List, [], ◌∷◌, All}
use k8s_chaos.Go.{Result, ok, err}
use k8s_chaos.Api.{ChaosExperiment}
use k8s_chaos.Windows.Calendar.{Calendar}
use k8s_chaos.Controller.Frame.{Keeps}
use k8s_chaos.Controller.Failure.{effective_max_retries}
use k8s_chaos.Controller.Machine.{Reached, Reached-trans, Moves-bounded}
use k8s_chaos.Controller.Handlers.Common.{Reconciler}
use k8s_chaos.Controller.Reconcile.{reconcile, on_experiment}
use k8s_chaos.Controller.Reconcile.Storing.{Env, reconcile_experiment-Keeps}

-- An experiment that is found has been reached from `exp`.
abbrev pub Finds : ChaosExperiment → Result ChaosExperiment → Type 0
Finds exp (err x) = Unit
Finds exp (ok e) = Reached exp e

-- It has the spec of `exp`, and no more retries than that allows.
abbrev pub Bounded : ChaosExperiment → Result ChaosExperiment → Type 0
Bounded exp (err x) = Unit
Bounded exp (ok e) = (e.spec ≡ exp.spec) × (e.status.retry_count ≤ effective_max_retries exp)

Finds-Bounded :
    (exp : ChaosExperiment) (found : Result ChaosExperiment)
    → exp.status.retry_count ≤ effective_max_retries exp
    → Finds exp found
    → Bounded exp found
Finds-Bounded exp (err x) h f = tt
Finds-Bounded exp (ok e) h f = (f.same, Moves-bounded f.moves h)

module _ {W Location : Type 0} (r : Reconciler W) (cal : Calendar Location)
    (parse_cron : String → Result (ℕ → ℕ)) (namespace name : String) where
  -- Something happens, and the experiment is reconciled.
  abbrev pub rounds : List (W → W) → W → W
  rounds [] w = w
  rounds (happens ∷ more) w = rounds more (reconcile r cal parse_cron namespace name (happens w)).1

  module _ (P : W → Type 0) (exp : ChaosExperiment) (env : Env r P exp)
      (finds : (w : W) → P w → Finds exp (r.client.get_experiment namespace name w).0) where
    Env-at : (e : ChaosExperiment) → Reached exp e → Env r P e
    Env-at e reached = record {
      storing = record {
        quiet = env.storing.quiet;
        stores = λ e' later. env.storing.stores e' (Reached-trans reached later);
        gets = env.storing.gets;
      };
      records = env.records;
      spawns = env.spawns;
      shuffles = env.shuffles;
      rearranges = env.rearranges;
      sleeps = env.sleeps;
      reads = env.reads;
      attacks = env.attacks;
      deletes = env.deletes;
      nodes = env.nodes;
    }

    on_found-Keeps :
        (found : Result ChaosExperiment)
        → Finds exp found
        → Keeps P (on_experiment r cal parse_cron found)
    unfolding on_experiment
    on_found-Keeps (err x) f w p = p
    on_found-Keeps (ok e) f w p = reconcile_experiment-Keeps r cal parse_cron P e (Env-at e f) w p

    reconcile-safe : (w : W) → P w → P (reconcile r cal parse_cron namespace name w).1
    unfolding reconcile
    reconcile-safe w p = on_found-Keeps _ (finds w p) _ (env.storing.gets namespace name w p)

    rounds-safe :
        (steps : List (W → W)) (w : W)
        → All (λ happens. (v : W) → P v → P (happens v)) steps
        → P w
        → P (rounds steps w)
    rounds-safe [] w h p = p
    rounds-safe (happens ∷ more) w (h, hs) p =
        rounds-safe more _ hs (reconcile-safe (happens w) (h w p))

    -- However often an experiment is reconciled, and whatever happens in between that keeps the stored
    -- experiment one that can be reached: an experiment that is read afterwards has the spec of the first
    -- one, and no more retries than that spec allows, if the first one had no more.
    pub rounds-Bounded :
        (steps : List (W → W)) (w : W)
        → All (λ happens. (v : W) → P v → P (happens v)) steps
        → exp.status.retry_count ≤ effective_max_retries exp
        → P w
        → Bounded exp (r.client.get_experiment namespace name (rounds steps w)).0
    rounds-Bounded steps w h b p =
        Finds-Bounded exp _ b (finds (rounds steps w) (rounds-safe steps w h p))
