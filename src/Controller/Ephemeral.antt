-- ===== src/Controller/Ephemeral.antt =====
-- internal/controller/chaosexperiment_controller.go: ephemeral containers: their injection with retries
-- on conflicts, the list of affected pods and its cleanup.
pub mod References
pub mod Injection
use Prim.Native.String
use k8s_chaos.Prelude.{
  ℕ, zero, suc, ◌+◌, ◌*◌, String, List, [], ◌∷◌, ◌++◌, Bool, true, false, ◌&&◌, ◌||◌, not, Option,
  none, some, any, ltb, eqb, ◌==◌, if◌then◌else◌,
}
use k8s_chaos.Go.{
  Message, GoError, error_text, Result, ok, err, errorf, wrapf, num, end, is_not_found,
}
use k8s_chaos.Api.{
  ChaosExperiment, Pod, EphemeralContainer, ContainerStatus, ContainerState, waiting, running,
  terminated,
}
use k8s_chaos.Client.{M, ◌>>=◌, ◌>>◌, return, Client}
use k8s_chaos.Windows.Calendar.{cut_colon}
use k8s_chaos.Controller.Errors.{strip_prefix, find_first, cut_slash}
use k8s_chaos.Controller.Targets.{is_some}

-- `strings.Contains(text, part)`.
unfoldable pub contains_text : String → String → Bool
unfolding find_first strip_prefix
contains_text text part = is_some (find_first (strip_prefix part) text)

unfoldable pub is_conflict_text : String → Bool
unfolding contains_text
is_conflict_text text =
    contains_text text "the object has been modified"
    || contains_text text "Operation cannot be fulfilled"

abbrev pub is_running : ContainerState → Bool
is_running running = true
is_running waiting = false
is_running terminated = false

-- A container without a status may be starting: it counts as running.
unfoldable pub is_ephemeral_container_running : List ContainerStatus → String → Bool
is_ephemeral_container_running [] name = true
is_ephemeral_container_running (s ∷ ss) name =
    let rest = is_ephemeral_container_running ss name in
    if s.name == name then is_running s.state else rest

-- `fmt.Sprintf("%s/%s:%s", namespace, podName, containerName)`.
unfoldable pub pod_ref : String → String → String → String
pod_ref namespace pod container =
    String.◌++◌ namespace (String.◌++◌ "/" (String.◌++◌ pod (String.◌++◌ ":" container)))

unfoldable pub track_affected_pod : ChaosExperiment → String → String → String → ChaosExperiment
unfolding pod_ref
track_affected_pod exp namespace pod container =
    let ref = pod_ref namespace pod container in
    if any (λ existing. existing == ref) exp.status.affected_pods then exp else record exp {
      status = record (exp.status) { affected_pods = exp.status.affected_pods ++ ref ∷ [] };
    }

-- The parts of a reference: `SplitN(ref, ":", 2)`, and `SplitN(key, "/", 2)` of the first part.
unfoldable pub parse_pod_ref : String → Option (String × String × String)
unfolding cut_colon cut_slash
parse_pod_ref ref = elim (cut_colon ref) [
  | none ↦ none
  | some (key, container) ↦ elim (cut_slash key) [
    | none ↦ none
    | some (namespace, pod) ↦ some (namespace, pod, container)
  ]
]

-- The counts that the cleanup logs.
pub record Summary : Type 0 where
  pub cleaned_up : ℕ
  pub still_running : ℕ
  pub errors : ℕ

abbrev clean_one : Summary → Summary
clean_one s = record s { cleaned_up = s.cleaned_up + 1 }

-- The state of the container, from its first status of that name.
find_state : String → List ContainerStatus → Option ContainerState
find_state name [] = none
find_state name (s ∷ ss) =
    let rest = find_state name ss in if s.name == name then some s.state else rest

-- The counts behind the inner loop over the statuses of one pod; `cleaned_up` goes up once more where
-- the container has not terminated and none was found running so far.
unfoldable pub count_state : Option ContainerState → Summary → Summary
count_state (some terminated) s = clean_one s
count_state (some running) s = record s { still_running = s.still_running + 1 }
count_state (some waiting) s = if eqb s.still_running 0 then clean_one s else s
count_state none s = if eqb s.still_running 0 then clean_one s else s

module _ {W : Type 0} (c : Client W) where
  open c use {sleep, get_pod, update_ephemeral_containers}

  unfoldable pub clean_ref : String → Summary → M W Summary
  unfolding count_state find_state
  clean_ref ref s = elim (parse_pod_ref ref) [
    | none ↦ return (record s { errors = s.errors + 1 })
    | some (namespace, pod, container) ↦ do
      found ← get_pod namespace pod
      elim found [
        | err e ↦
            return (if is_not_found e then clean_one s else record s { errors = s.errors + 1 })
        | ok p ↦ return (count_state (find_state container p.ephemeral_container_statuses) s)
      ]
  ]

  unfoldable pub clean_refs : List String → Summary → M W Summary
  unfolding clean_ref
  clean_refs [] s = return s
  clean_refs (ref ∷ refs) s = do s' ← clean_ref ref s; clean_refs refs s'

  -- The list is cleared, whatever was found.
  unfoldable pub cleanup_ephemeral_containers : ChaosExperiment → M W ChaosExperiment
  unfolding clean_refs
  cleanup_ephemeral_containers exp = elim exp.status.affected_pods [
    | [] ↦ return exp
    | ref ∷ refs ↦ do
      clean_refs (ref ∷ refs) (record { cleaned_up = 0; still_running = 0; errors = 0 })
      return (record exp { status = record (exp.status) { affected_pods = [] } })
  ]

  module _ (sprintf : Message → String) where
    -- One attempt: `none` asks for another one.
    unfoldable pub try_update :
        Pod → EphemeralContainer → ℕ → Bool → M W (Option (Result (Unit {0})))
    try_update pod container attempt last = do
      found ← get_pod pod.namespace pod.name
      elim found [
        | err e ↦ return (some (err (wrapf "failed to get current pod state: %w" end e)))
        | ok current ↦
            if any (λ (k : EphemeralContainer). k.name == container.name)
              current.ephemeral_containers
            then return (some (ok tt))
            else do
              updated ← update_ephemeral_containers (record current {
                ephemeral_containers = current.ephemeral_containers ++ container ∷ [];
              })
              elim updated [
                | ok _ ↦ return (some (ok tt))
                | err e ↦
                    if is_conflict_text (sprintf (error_text e)) && not last
                    then return none
                    else return (
                        some (
                          err (
                            wrapf "failed to inject ephemeral container after %d attempts: %w"
                              (num (attempt + 1) end) e)))
              ]
      ]

    -- The loop, with the attempts left, the number of the attempt and the pause before the next one.
    unfoldable pub inject_attempts :
        Pod → EphemeralContainer → (left attempt backoff : ℕ) → M W (Result (Unit {0}))
    unfolding try_update
    inject_attempts pod container zero attempt backoff =
        return (err (errorf "failed to inject ephemeral container: max retries exceeded" end))
    inject_attempts pod container (suc left) attempt backoff = do
      tried ← try_update pod container attempt (eqb left 0)
      elim tried [
        | some r ↦ return r
        | none ↦ do sleep backoff; inject_attempts pod container left (attempt + 1) (2 * backoff)
      ]

    unfoldable pub update_pod_with_ephemeral_container :
        Pod → EphemeralContainer → M W (Result (Unit {0}))
    unfolding inject_attempts
    update_pod_with_ephemeral_container pod container = inject_attempts pod container 5 0 100000000
