-- ===== src/Controller.antt =====
-- The reconciler: internal/controller/chaosexperiment_controller.go and errors.go.
pub mod Frame
pub mod Errors
pub mod Outcome
pub mod Failure
pub mod Machine
pub mod Targets
pub mod Nodes
pub mod Conditions
pub mod Gates
pub mod Schedule
pub mod Ephemeral
pub mod Lifecycle
pub mod Handlers
pub mod Dispatch
pub mod Reconcile
