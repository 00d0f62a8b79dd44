-- ===== src/Database/Refunding.antt =====
-- What `refund_order_row` does to the tables, and what it answers.
pub mod Outcome
pub mod Insert
pub mod Ends
pub mod Keeps
pub mod Laws
pub mod Again
pub mod First
