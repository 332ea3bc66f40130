-- ===== src/Queue.antt =====
-- backend/app/services/lifecycle_queue.py: claiming, leases, retries and the end of lifecycle jobs.
--
-- Time is a number of one unit, and so is a lease; a float that is no positive number cannot be
-- written, so of `_positive_seconds` only the refusal of zero is left. Each function works on the
-- committed tables and returns them as it leaves them. `redact` is
-- secret_redaction.redact_secret_text, and `id_le` the collation in which PostgreSQL orders ids.
mod Defs
mod Claim
pub mod Rows
mod Loop
pub mod Lease
pub mod JobStep
pub mod Refinement
pub mod Least
pub mod Order
pub mod Failure
pub mod Audit
mod Tests
pub mod Schedule
unfoldable pub use Defs.*
unfoldable pub use Claim.*
