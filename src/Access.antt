-- ===== src/Access.antt =====
-- Who may do what: backend/app/auth/permissions.py, services/project_access.py,
-- services/airflow_role.py and services/project_airflow_context.py.
mod Patterns
mod Guards
mod Context
pub mod Sound
mod Tests
unfoldable pub use Patterns.*
unfoldable pub use Guards.*
unfoldable pub use Context.*
