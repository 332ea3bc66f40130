-- ===== src/Operations.antt =====
-- Requests that enqueue a lifecycle job: services/project_operations.py, the provisioning endpoints of
-- routers/projects.py and the deletion endpoint of routers/admin.py. A request runs in one
-- transaction; `others` is what other transactions commit between its reads and its flush.
mod Fingerprint
mod Tables
mod Create
mod Provision
mod Deletion
pub mod Rows
pub mod Created
pub mod Grants
pub mod Retried
pub mod Active
pub mod Interleaved
mod Tests
unfoldable pub use Fingerprint.*
unfoldable pub use Tables.*
unfoldable pub use Create.*
unfoldable pub use Provision.*
unfoldable pub use Deletion.*
