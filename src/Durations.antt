-- ===== src/Durations.antt =====
-- Durations as texts: `ValidateDurationFormat` and `ValidateMemorySize` of
-- api/v1alpha1/validation_helpers.go, and the parsers of the controller.
pub mod Text
pub mod Parse
pub mod Groups
pub mod Matching
pub mod Sums
pub mod Grammar
