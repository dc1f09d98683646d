-- ===== src/Lint.antt =====
-- src/rules: the lint rules for PostgreSQL.
pub mod Visitors
pub mod Engine
pub mod Rules
pub mod Command
