-- ===== src/Webhook.antt =====
-- The validating webhook: api/v1alpha1/chaosexperiment_webhook.go, and the address checks of
-- api/v1alpha1/validation_helpers.go.
pub mod Network
pub mod Actions
pub mod Safety
pub mod Create
