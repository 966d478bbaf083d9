-- ===== src/Handler.antt =====
-- internal/handler: what a request asks for, and how the answer is reported.
pub mod Query
pub mod Params
pub mod Dashboard
pub mod Record
pub mod Api
pub mod Offset
pub mod Externals
pub mod Reply
pub mod Detail
pub mod Actions
pub mod Links
pub mod Overview
pub mod Flow
pub mod Login
