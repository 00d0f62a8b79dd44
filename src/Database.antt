-- ===== src/Database.antt =====
-- app/database.py: the tables, a query as a function that may raise, and the transaction around it.
-- A table is a list of rows, the newest first; SQL gives no order without ORDER BY, and each query
-- here that has none reads at most one row. Money (NUMERIC(10, 2)) is in cents.
pub mod Schema
pub mod Sql
pub mod Orders
pub mod Listing
pub mod Refunds
pub mod Invariant
pub mod Cancellation
pub mod Privacy
pub mod Products
pub mod Memories
pub mod Totals
pub mod Lifecycle
pub mod Creation
pub mod Seeding
pub mod Refunding
