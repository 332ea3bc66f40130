-- ===== src/Worker.antt =====
-- backend/app/workers/lifecycle.py and the registry of services/lifecycle_runner.py: a worker claims a
-- job, runs it under heartbeats, and settles it.
mod Defs
pub mod Settled
pub mod Lost
pub mod Run
mod Tests
unfoldable pub use Defs.*
