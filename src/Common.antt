-- ===== src/Common.antt =====
-- apps/common: the error envelope and the unified permission class; services/common: tasks that run
-- once.
pub mod Errors
pub mod Gate
pub mod Idempotency
pub mod Mail
pub mod Deliveries
pub mod Records
pub mod Tracing
pub mod Logging
pub mod Health
pub mod Throttling
pub mod CodeName
pub mod Envelope
pub mod Retries
