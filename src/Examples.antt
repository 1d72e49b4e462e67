-- ===== src/Examples.antt =====
-- A concrete environment, and the theorems at concrete inputs.
mod World
mod Operator
mod Nodes
mod Handlers
mod Runs
mod Reconciliations
mod Webhook
mod Records
mod Commands
mod Texts
