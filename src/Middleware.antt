-- ===== src/Middleware.antt =====
-- internal/middleware: who may pass, and the cookies that say so.
pub mod Session
pub mod Human
pub mod Auth
pub mod Require
pub mod Logging
