-- ===== src/Reauth.antt =====
-- backend/app/services/reauth.py: password re-authentication for one destructive action.
mod Defs
pub mod Limits
pub mod Grants
mod Tests
unfoldable pub use Defs.*
