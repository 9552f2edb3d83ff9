-- ===== src/Sql.antt =====
-- The SQL statements of internal/postgres/sqlc (the texts of queries/*.sql with their wrappers), as
-- functions of the tables, over a few operations on lists of rows.
pub mod Rows
pub mod Keys
pub mod Sessions
pub mod Verifications
pub mod Users
pub mod Groups
pub mod Debts
pub mod Payments
pub mod Expenses
