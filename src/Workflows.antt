-- ===== src/Workflows.antt =====
-- app/temporal_workflows/: the workflows, their activities, and all runs over one database.
pub mod Activities
pub mod Cancel
pub mod Refund
pub mod System
