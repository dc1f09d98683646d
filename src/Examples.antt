-- ===== src/Examples.antt =====
-- Tests, and the theorems at concrete inputs: an in-memory database, groups, and runs of the commands.
pub mod Memory
pub mod Names
pub mod Groups
pub mod Graphs
pub mod ApplyRuns
pub mod Reads
pub mod Texts
pub mod Statements
pub mod Lints
pub mod Built
pub mod Squashes
pub mod Saved
