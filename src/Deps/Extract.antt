-- ===== src/Deps/Extract.antt =====
-- src/deps.ts
pub mod Names
pub mod Ranges
pub mod Roles
pub mod Tables
pub mod Body
pub mod Analyze
pub mod Sql
pub mod File
