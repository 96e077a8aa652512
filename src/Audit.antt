-- ===== src/Audit.antt =====
-- The audit trail: apps/audit and services/audit.
pub mod Context
pub mod Signals
pub mod Service
pub mod Tasks
pub mod Views
