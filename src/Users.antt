-- ===== src/Users.antt =====
-- apps/users and services/users.
pub mod Views
pub mod Erasure
pub mod Registration
pub mod PasswordReset
pub mod Welcome
