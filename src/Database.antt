-- ===== src/Database.antt =====
-- Roles and databases of the projects, backend/app/services/project_database.py.
pub mod Identifiers
pub mod Server
pub mod Manager
pub mod Trace
pub mod Fenced
pub mod Created
pub mod Guarded
pub mod Calls
pub mod Refused
mod Tests
