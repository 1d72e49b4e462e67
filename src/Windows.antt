-- ===== src/Windows.antt =====
-- Time windows: the second half of api/v1alpha1/validation_helpers.go.
pub mod Calendar
pub mod Validate
pub mod Within
pub mod Boundary
