-- ===== src/Demo.antt =====
-- The demo data: examples/demo_config.py and services/demo/seed_service.py.
pub mod Config
pub mod Permissions
pub mod Seed
pub mod Steps
pub mod Keeps
pub mod Runs
pub mod Granted
pub mod Ensured
pub mod Seeded
