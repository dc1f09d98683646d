-- ===== src/Lib.antt =====
-- migraguard keeps the migrations of a database in order: it applies SQL files, records each
-- execution in the table schema_migrations, refuses edits of old files, and drives expand/contract
-- groups through their phases. This library models the parts that decide, as they are written.
--
-- The program's parts and their files:
--   * src/naming.ts, the phases: Naming; serial numbers: Naming/Decimal, Naming/Serial; the names of
--     phase files: Naming/PhaseFile; new names: Naming/Generate.
--     src/scanner.ts, what a scan returns: Scanner.
--     src/metadata.ts, the entries of metadata.json: Metadata; its
--     tree and the test of what is read: Metadata/Stored.
--   * src/db.ts, the rows and `insertRecord`: Db. The server is the parameter `Database`, a record
--     of a type of sessions with `select_rows` (getAllRecords), `insert_row`, the clock and
--     `execute_sql_file` (executeSqlFile). `IsDatabase` names what the commands rely on: an
--     INSERT appends its row, with a time later than that of all others, and a migration file
--     does not write to schema_migrations. Db/Laws has what follows for `insert_record`.
--   * src/group-state.ts, the state of a group as its rows show it: GroupState. The abstract view is
--     GroupState/Machine: the latest status of each of the four phases, with `set_status`,
--     `may_enter` and `state_of`. GroupState/Latest and GroupState/Record follow the latest record
--     when a row is added, GroupState/History the whole list of rows.
--   * src/deps.ts, the graph of the files: Deps. `findTransitiveDependents` is Deps/Dependents,
--     `findLeafNodes` stands in Deps, `topologicalSort` is Deps/Topological, `detectCycles`
--     is Deps/Cycles,
--     `buildDependencyGraphFromFiles` is Deps/Build. What a file creates and references:
--     Deps/Extract, by the kinds of statements (Tables, Roles, Ranges, Body for DO blocks, Analyze
--     for views and functions), with `analyzeSql` in Deps/Extract/Sql and `analyzeFile` in
--     Deps/Extract/File. Dependencies in comments: Deps/Explicit.
--   * src/sql-ast.ts: Ast, the parse tree as JSON with the ways in which the source reads it. The
--     parser libpg-query and the UTF-8 codec are the parameter `SqlParser`.
--   * src/rules/engine.ts: Lint/Visitors (the calls of the handlers) and Lint/Engine (`runRules`).
--     A rule is a record with a type for the variables of its `create`. src/rules/*.ts: Lint/Rules,
--     by topic, with ALL_RULES in Lint/Rules itself. src/commands/lint.ts: Lint/Command.
--   * src/generic, the linter and the dependencies for MySQL and SQLite: Generic, with
--     node-sql-parser as the parameter `GenericParser`.
--   * The comments `-- migraguard:...` that the regular expressions of src/deps.ts and of the
--     engines find: Directives, one scan of the text for both.
--   * src/checksum.ts, `normalizeSQL`: Checksum.
--   * src/commands/advance.ts, apply-phase.ts and resolve.ts: Commands/Advance, Commands/ApplyPhase,
--     Commands/Resolve. Commands/Histories runs sequences of them.
--   * src/commands/apply.ts: Commands/Apply (`processFile`), Commands/Apply/Run (the loop),
--     Commands/Apply/Command (`commandApply`, `applyFromBaseline`).
--   * src/commands/check.ts, status.ts, editable.ts, gate.ts and group-status.ts: Commands/Check,
--     Commands/Status, Commands/Editable, Commands/Gate, Commands/GroupStatus.
--   * src/commands/squash.ts: Commands/Squash (a group), Commands/Squash/Components
--     (`findConnectedComponents`), Commands/Squash/Run (the command). A folder maps paths to texts.
--   * Prelude: tests on the native numbers, lists, texts (lists of UTF-16 code units) and maps
--     (association lists in order of insertion). Examples: a database in memory, and runs.
--
-- A command takes a session and returns a result with the session after it. Maps and sets of the
-- source are lists without repetition; objects that the source mutates (`result`, `blockedSet`) are
-- passed on. Errors are values in place of messages, and thrown errors are results.
--
-- Loops: the loop over the files is recursion on the list. The search for dependents takes as fuel
-- two rounds more than the graph has edges, since each file but the first enters the queue once,
-- by an edge; topologicalSort takes a round more than there are files, since a file enters its
-- queue once; the recursion of `detectCycles` goes one call deeper than there are files at most.
-- A walk of `findConnectedComponents` takes two rounds more than there are neighbors in all,
-- since each file pushes its neighbors once. `normalizeSQL` takes a round more than the text has
-- code units. `analyzeSql` takes a round more than the text has code units, which is enough for a
-- parser that finds shorter texts in the statements of a text.
--
-- Numbers in file names are doubles in the source. The model counts up to 2 ^ 53, where doubles are
-- exact, and says of any other number no more than that it is one.
--
-- Not modelled: the server, the drivers, locks and connections, console output, external programs
-- (psql, pg_dump), SHA-256 (`checksum_file` and `sha256` are parameters), reading the
-- configuration, generated code, and the commands that are not named above. The graph is a
-- parameter of apply. The descriptions of the lint rules are left out.
pub mod Ast
pub mod Checksum
pub mod Commands
pub mod Db
pub mod Deps
pub mod Directives
pub mod Examples
pub mod Generic
pub mod GroupState
pub mod Lint
pub mod Metadata
pub mod Naming
pub mod Prelude
pub mod Scanner
