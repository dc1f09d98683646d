-- ===== src/Commands.antt =====
-- src/commands: one module for each command.
pub mod Advance
pub mod Check
pub mod Apply
pub mod ApplyPhase
pub mod Editable
pub mod Gate
pub mod GroupStatus
pub mod Resolve
pub mod Squash
pub mod Status
pub mod Histories
