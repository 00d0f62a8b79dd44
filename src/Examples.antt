-- ===== src/Examples.antt =====
-- The theorems at concrete inputs: one database, and callers and runs over it.
mod Sample
mod Orders
mod Refunds
mod Access
mod Agents
mod Cards
mod Threads
mod Cancellation
mod Chats
mod Starts
mod Dispatched
mod Histories
