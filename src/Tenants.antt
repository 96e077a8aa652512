-- ===== src/Tenants.antt =====
-- Tenants: apps/tenants/apps.py, apps/tenants/middleware.py, services/tenant_context.py and services/tenants.
pub mod Receivers
pub mod Middleware
pub mod Staleness
pub mod Service
