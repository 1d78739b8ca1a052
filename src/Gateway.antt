-- ===== src/Gateway.antt =====
-- The send pipeline that the REST server and the SMTP proxy share (internal/gateway).
pub mod Types
pub mod ContentId
pub mod Validity
pub mod Endpoints
pub mod Backend
pub mod Send
pub mod Memory
pub mod Samples
mod Tests
