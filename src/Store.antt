-- ===== src/Store.antt =====
-- internal/store/postgres/postgres.go over the tables of migrations/001_create_change_events.up.sql.
pub mod Tables
pub mod Scan
pub mod Write
pub mod Toggle
pub mod Annotations
pub mod Query
pub mod Current
