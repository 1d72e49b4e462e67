-- ===== src/Controller/Conditions.antt =====
-- internal/controller/chaosexperiment_controller.go: the condition BlockedByTimeWindow.
pub mod Laws
use k8s_chaos.Prelude.{ℕ, String, List, [], ◌∷◌, Bool, true, false, ◌==◌, if◌then◌else◌, any}
use k8s_chaos.Go.{Message}
use k8s_chaos.Api.{Condition, ChaosExperiment}
use k8s_chaos.Client.{M, ◌>>=◌, ◌>>◌, return, Client}

abbrev pub blocked_type : String
blocked_type = "BlockedByTimeWindow"

abbrev pub is_blocked : Condition → Bool
is_blocked d = d.condition_type == blocked_type

-- The first condition of the type is replaced; without one the condition is appended.
unfoldable pub put_condition : Condition → List Condition → List Condition
put_condition condition [] = condition ∷ []
put_condition condition (d ∷ ds) =
    let rest = put_condition condition ds in if is_blocked d then condition ∷ ds else d ∷ rest

-- The first condition of the type is cut out.
unfoldable pub drop_condition : List Condition → List Condition
drop_condition [] = []
drop_condition (d ∷ ds) = let rest = drop_condition ds in if is_blocked d then ds else d ∷ rest

module _ {W : Type 0} (c : Client W) where
  open c use {now, update_status}

  -- An error of the update is logged.
  unfoldable pub set_blocked_condition : ChaosExperiment → Message → M W ChaosExperiment
  unfolding put_condition
  set_blocked_condition exp message = do
    t ← now
    let condition : Condition = record {
      condition_type = blocked_type;
      condition_status = true;
      observed_generation = exp.generation;
      last_transition_time = t;
      reason = "OutsideTimeWindow";
      message = message;
    }
    let exp' = record exp {
      status = record (exp.status) { conditions = put_condition condition exp.status.conditions };
    }
    update_status exp'
    return exp'

  unfoldable pub clear_blocked_condition : ChaosExperiment → M W ChaosExperiment
  unfolding drop_condition
  clear_blocked_condition exp =
      let exp' = record exp {
        status = record (exp.status) { conditions = drop_condition exp.status.conditions };
      } in
      if any is_blocked exp.status.conditions
      then (do update_status exp'; return exp')
      else return exp
