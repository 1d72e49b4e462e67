-- ===== src/Api/Objects.antt =====
-- The Kubernetes objects that the program works on, with the fields that it reads or writes.
use k8s_chaos.Prelude.{ℕ, String, Bool, List, [], ◌∷◌, Option, none, some, ◌==◌, if◌then◌else◌}
use k8s_chaos.Go.{Message}

-- A Go `map[string]string`.
abbrev pub lookup : String → List (String × String) → Option String
lookup k [] = none
lookup k ((name, value) ∷ rest) =
    let found = lookup k rest in if name == k then some value else found

-- `val, exists := m[k]; exists && val == v`.
abbrev pub has_entry : String → String → List (String × String) → Bool
has_entry k v m = elim (lookup k m) [ none ↦ Bool.false | some w ↦ w == v ]

pub record OwnerReference : Type 0 where
  pub kind : String
  pub name : String

pub record VolumeMount : Type 0 where
  pub name : String
  pub mount_path : String

pub record Container : Type 0 where
  pub name : String
  pub volume_mounts : List VolumeMount

pub record EphemeralContainer : Type 0 where
  pub name : String
  pub image : String
  pub command : List Message
  pub capabilities : List String
  -- The limit and the request of CPU.
  pub cpu : Option (ℕ × String)

pub data ContainerState : Type 0 where
  waiting running terminated : ContainerState

pub record ContainerStatus : Type 0 where
  pub name : String
  pub restart_count : ℕ
  pub state : ContainerState

pub record Pod : Type 0 where
  pub name : String
  pub namespace : String
  pub labels : List (String × String)
  pub annotations : List (String × String)
  pub owner_references : List OwnerReference
  pub deletion_timestamp : Option ℕ
  pub phase : String
  pub containers : List Container
  pub init_containers : List Container
  pub ephemeral_containers : List EphemeralContainer
  pub container_statuses : List ContainerStatus
  pub ephemeral_container_statuses : List ContainerStatus

-- A pod that the controller creates on a node, with one container; its controller is the experiment.
pub record HostPod : Type 0 where
  pub name : String
  pub namespace : String
  pub labels : List (String × String)
  pub node_name : String
  pub restart_policy : String
  -- The namespaces for process identifiers, the network and interprocess communication.
  pub shares_host : Bool
  pub tolerates_all : Bool
  pub host_path : Option String
  pub volume_mounts : List VolumeMount
  pub container_name : String
  pub image : String
  pub command : List Message
  pub privileged : Bool
  pub cpu : Option (ℕ × String)

pub record Taint : Type 0 where
  pub key : String
  pub value : String
  pub effect : String

pub record Node : Type 0 where
  pub name : String
  pub unschedulable : Bool
  pub taints : List Taint

pub record Namespace : Type 0 where
  pub name : String
  pub labels : List (String × String)
  pub annotations : List (String × String)
