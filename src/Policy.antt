-- ===== src/Policy.antt =====
-- The policy engine (internal/policy) and the MailPolicy types that it reads (api/v1alpha1).
pub mod Types
pub mod Address
pub mod Match
pub mod Evaluate
pub mod Samples
mod Tests
