-- ===== src/Rest.antt =====
-- The REST server: internal/apiserver.
pub mod Types
pub mod Answers
pub mod Checks
pub mod Attachments
pub mod Body
pub mod Handler
pub mod Samples
mod Tests
