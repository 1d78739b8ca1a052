-- ===== src/SmtpProxy.antt =====
-- The SMTP submission front end (internal/smtpproxy).
pub mod Bcc
pub mod Reply
pub mod Session
pub mod Login
pub mod Headers
mod Tests
