-- ===== src/Client.antt =====
-- The interface to what the controller does not implement: the API server behind controller-runtime's
-- client, the clock, the random shuffle, the event recorder, the metrics and the pods' exec channel.
-- `W` is the state of all of it, and each call may change it.
use k8s_chaos.Prelude.{ℕ, Bool, String, List, Option}
use k8s_chaos.Go.{Message, Result}
use k8s_chaos.Api.{ChaosExperiment, ChaosExperimentHistory, Pod, HostPod, Node, Namespace}

-- A computation that may change the environment.
abbrev pub M : Type 0 → Type 0 → Type 0
M W A = W → A × W

infixl 5 ◌>>=◌ ◌>>◌
abbrev pub ◌>>=◌ : {W A B : Type 0} → M W A → (A → M W B) → M W B
◌>>=◌ m k w = let (a, w') = m w in k a w'

abbrev pub ◌>>◌ : {W A B : Type 0} → M W A → M W B → M W B
◌>>◌ m k w = let (a, w') = m w in k w'

abbrev pub return : {W A : Type 0} → A → M W A
return a w = (a, w)

-- The goroutines that the controller starts.
pub data Task : Type 0 where
  retention_cleanup : ChaosExperiment → Task
  ttl_cleanup : Task

pub record Client (W : Type 0) : Type 0 where
  pub now : M W ℕ
  pub sleep : ℕ → M W (Unit {0})
  -- `select` on a timer and on the end of the context, whose error it returns.
  pub wait : ℕ → M W (Result (Unit {0}))
  pub shuffle : List Pod → M W (List Pod)
  pub shuffle_nodes : List Node → M W (List Node)
  pub spawn : Task → M W (Unit {0})
  pub event : String → String → Message → M W (Unit {0})
  -- A counter goes up by, or a gauge or histogram is given, a value; `track` moves the gauge of active
  -- experiments of an action up (`true`) or down.
  pub metric : String → List String → ℕ → M W (Unit {0})
  pub track : String → Bool → M W (Unit {0})
  pub get_experiment : String → String → M W (Result ChaosExperiment)
  pub update_status : ChaosExperiment → M W (Result (Unit {0}))
  pub get_namespace : String → M W (Result Namespace)
  pub list_pods : String → List (String × String) → M W (Result (List Pod))
  pub list_pods_on_node : String → M W (Result (List Pod))
  pub get_pod : String → String → M W (Result Pod)
  pub create_pod : HostPod → M W (Result (Unit {0}))
  pub delete_pod : Pod → M W (Result (Unit {0}))
  pub evict_pod : Pod → ℕ → M W (Result (Unit {0}))
  pub update_ephemeral_containers : Pod → M W (Result (Unit {0}))
  pub exec_in_pod : String → String → String → List String → M W (Result (Unit {0}))
  pub list_nodes : List (String × String) → M W (Result (List Node))
  pub get_node : String → M W (Result Node)
  pub update_node : Node → M W (Result (Unit {0}))
  pub create_history : ChaosExperimentHistory → M W (Result (Unit {0}))
  pub list_history : String → Option String → M W (Result (List ChaosExperimentHistory))
  pub delete_history : ChaosExperimentHistory → M W (Result (Unit {0}))
