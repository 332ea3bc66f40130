-- ===== src/Admin.antt =====
-- The administration of users, roles and permissions, backend/app/routers/admin.py.
pub mod Requests
pub mod Consistent
pub mod Renaming
pub mod Administered
pub mod Granting
pub mod Lockout
mod Tests
