-- ===== src/Lib.antt =====
-- k8s-chaos is a Kubernetes operator: a custom resource ChaosExperiment says which fault to cause in
-- which pods or nodes, an admission webhook checks it, and a controller carries it out, retries it,
-- ends it, and keeps a record of every run. This library models the API types, the webhook, the
-- controller, and the commands of the command line tool.
--
-- The parts, and the code that they follow:
--   Go             errors and formatted texts; a text is kept as its format and arguments
--   Api            api/v1alpha1/chaosexperiment_types.go, chaosexperimenthistory_types.go, and the
--                  Kubernetes objects that the program reads or writes
--   Client         the interface to the API server, the clock, the shuffle, events, metrics and exec
--   Durations      api/v1alpha1/validation_helpers.go, ValidateDurationFormat and ValidateMemorySize
--                  (Text); the parsers of internal/controller/chaosexperiment_controller.go (Parse);
--                  what the two accept (Grammar)
--   Windows        api/v1alpha1/validation_helpers.go: time windows, their check (Validate), what lies
--                  within them (Within) and their next boundary (Boundary)
--   Float64        the operations of float64 that validateMaxPercentage uses
--   Webhook        api/v1alpha1/chaosexperiment_webhook.go, with the checks of addresses (Network), of
--                  the spec (Actions), of safety (Safety) and the entry points (Create)
--   History        internal/controller/history.go: records (Record), their order (Sort), their cleanup
--                  (Retention), with the flags of the history in cmd/main.go (Retention.Startup)
--   Controller     internal/controller/errors.go (Errors), and of
--                  internal/controller/chaosexperiment_controller.go: retries and statuses (Failure),
--                  getEligiblePods (Targets), cordonNode to drainNode (Nodes), checkSchedule (Schedule),
--                  checkDependencies and checkTimeWindows (Gates, Conditions), ephemeral containers
--                  (Ephemeral), checkExperimentLifecycle (Lifecycle), the handlers of the actions
--                  (Handlers), the switch on the action (Dispatch), and Reconcile (Reconcile)
--   Controller.Handlers
--                  handlePodKill and handlePodFailure (Pods), handleNodeDrain and handleNodeTaint (Nodes),
--                  handlePodDelay (Delay), handlePodCPUStress and handlePodMemoryStress (Stress),
--                  handlePodNetworkLoss, handlePodNetworkCorruption and handleNetworkPartition (Network),
--                  handlePodDiskFill (Disk), handlePodRestart (Restart), handleNodeCPUStress and
--                  handleNodeDiskFill (HostPods). They share what they require of the spec
--                  (Requirements), the search for targets and the loop of injections (Injection), the
--                  containers, scripts and pods that they build (Containers, Scripts, Deployments), and
--                  the report at their end (Common, Conclusion)
--   Controller.Machine
--                  phases and retries as a step relation: what a run of a handler, a pause, a schedule or
--                  the end of an experiment may do to its status; Frame, Handlers.NodeAttacks and
--                  Dispatch.Framed say what the controller's calls keep, and Reconcile.Stages, Lifespan,
--                  Storing and Rounds put it together for Reconcile
--   CommandLine    pkg/cli/cmd: the commands stats (Stats), list (Listing), top (Top), describe (Details)
--                  and delete (Delete) over a client and a terminal (Terminal), and their texts (Texts)
--   Examples       an environment in memory, and the theorems at concrete inputs
--
-- A call of the controller is a function on the state `W` of the environment (Client.M): the record
-- Client has one field for each call that the program makes of something outside it, so that a
-- theorem over an arbitrary Client holds however the API server answers. The experiment, which the
-- code mutates in place, is passed and returned; what a call stores is the value given to
-- `update_status`. Logging is left out. Where a theorem needs the environment to behave, a
-- hypothesis says how: Nodes.Restore has KeepsNodes, Lifecycle.Undone HoldsNodes,
-- Ephemeral.Injection CountsUpdates, Schedule.Due IsCron, Handlers.Restart.Polling Advances,
-- History.Retention.Expiry KeepsRecords, CommandLine.Top.Ranking Sorts, Failure.Attempts
-- Stored. A frame says of each call whether it keeps a predicate: Quiet and Harmless in Frame,
-- NodeAttacks in Handlers.NodeAttacks, Frame in Dispatch.Targeted, Stores in Reconcile.Stages, Env in
-- Reconcile.Storing, Looks in CommandLine.Delete.Confirmed.
--
-- Parameters stand for Go's time package (Windows.Calendar), its net package (Webhook.Network), the cron
-- package (a parser that gives the function Next of a schedule), the formats that name a record
-- (History.Record), the layout of a time (CommandLine.Details), sort.Slice (CommandLine.Top), and the
-- rendering of a message (sprintf). Times and durations are in nanoseconds; a
-- time counts from Go's zero time, and a time.Duration is its pattern of 64 bits, which wraps around
-- where the code multiplies. Loops recurse on the list they run over, or on the number of rounds that
-- the code itself fixes (8 days in Windows.Boundary, 5 attempts in Controller.Ephemeral). The wait for a
-- restart (Handlers.Restart) ends by the clock in the code: it is given 47 rounds, which are enough where
-- each pause of a second that is not cancelled takes a second, since its deadline is 45 seconds away. The
-- periodic cleanup of expired records runs over the list of what happens until each of its ticks. A
-- panic, which controller-runtime recovers, ends a handler with the error `recovered`.
--
-- Not modelled: what a shell makes of the injected scripts; execInPod, the set-up of the manager, of the
-- webhook server and of the client, the Prometheus collectors, the parsing of flags, the width of the
-- columns of a printed table, and generated code.
pub mod Prelude
pub mod Go
pub mod Api
pub mod Client
pub mod CommandLine
pub mod History
pub mod Durations
pub mod Windows
pub mod Float64
pub mod Webhook
pub mod Controller
pub mod Examples
