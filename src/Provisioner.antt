-- ===== src/Provisioner.antt =====
-- ComposeProvisioner of backend/app/services/compose_provisioner.py: the saga that brings up the runtime
-- of a project, with its fences on the job's lease.
mod Resources
mod Saga
pub mod Converge
pub mod Ready
pub mod Failed
mod Tests
unfoldable pub use Resources.*
unfoldable pub use Saga.*
