-- ===== src/History.antt =====
-- internal/controller/history.go: records of executions, and their retention.
pub mod Sort
pub mod Record
pub mod Retention
