-- ===== src/Lifecycle.antt =====
-- backend/app/services/lifecycle_errors.py and project_lifecycle.py: the errors of lifecycle steps,
-- the retry delay, the state machine of a project and the names of its runtime.
mod Errors
mod Retry
pub mod Delay
pub mod Transitions
pub mod Identity
mod Tests
unfoldable pub use Errors.*
unfoldable pub use Retry.*
