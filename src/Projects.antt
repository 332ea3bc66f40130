-- ===== src/Projects.antt =====
-- Endpoints of backend/app/routers/projects.py on members, environments, settings and the Git
-- configuration of a ready project. An exception leaves the tables, since the session is closed
-- without a commit.
mod Guards
mod Members
mod Environments
mod Git
mod Commands
pub mod Authority
pub mod Removal
pub mod Roster
pub mod Credentials
mod Tests
unfoldable pub use Guards.*
unfoldable pub use Members.*
unfoldable pub use Environments.*
unfoldable pub use Git.*
unfoldable pub use Commands.*
