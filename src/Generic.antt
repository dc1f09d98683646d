-- ===== src/Generic.antt =====
-- src/generic: the linter and the dependencies for MySQL and SQLite.
pub mod Parser
pub mod Engine
pub mod Deps
pub mod Rules
