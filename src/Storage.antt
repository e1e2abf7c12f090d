-- ===== src/Storage.antt =====
-- internal/storage/sqlite: the tables, the statements and the repositories over them.
pub mod Tables
pub mod Sql
pub mod Runs
pub mod Approvals
pub mod Events
pub mod Fixtures
