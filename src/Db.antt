-- ===== src/Db.antt =====
-- The database as the services see it: tables, errors as values, and transactions.
pub mod Table
pub mod Rows
pub mod Counts
pub mod Action
pub mod Keyed
