-- ===== src/Batch/Store.antt =====
-- internal/repository/sqlstore/batches.go: one function for each transaction, from the tables to the tables.
-- Each is one step, as SQLite, the default driver, runs them: one that writes holds the only write lock
-- to its end. PostgreSQL runs them READ COMMITTED, where the statements of two transactions may
-- alternate; this is not modelled. A transaction that fails leaves the tables, and is not a step. The identifiers that uuid makes, and
-- the clock, are arguments; a primary key refuses an identifier that is taken.
pub mod Inserts
pub mod Claims
pub mod Summary
pub mod Outcomes
unfoldable pub use Inserts.*
unfoldable pub use Claims.*
unfoldable pub use Summary.*
unfoldable pub use Outcomes.*
