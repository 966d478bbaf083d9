-- ===== src/Service.antt =====
-- internal/service/change.go over the store.
pub mod Validate
pub mod Identity
pub mod Create
pub mod Operation
pub mod Activity
