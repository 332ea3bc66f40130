-- ===== src/Artifacts.antt =====
-- The generated runtime files of a project, backend/app/services/runtime_artifacts.py.
pub mod Spec
pub mod Quote
pub mod Validate
pub mod EnvFile
pub mod Env
pub mod Disk
pub mod Publish
pub mod Writer
pub mod Verified
pub mod Staged
pub mod Atomic
pub mod Rendered
mod Tests
