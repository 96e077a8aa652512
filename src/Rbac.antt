-- ===== src/Rbac.antt =====
-- Roles and permissions: services/rbac and apps/rbac.
pub mod Queries
pub mod Consistent
pub mod Checks
pub mod Writes
pub mod Assign
pub mod Gate
pub mod Views
