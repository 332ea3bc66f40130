-- ===== src/Sessions.antt =====
-- Sessions of the HTTP API: backend/app/auth/jwt.py, backend/app/auth/deps.py and
-- backend/app/routers/auth.py.
pub mod Tokens
pub mod Source
pub mod Endpoints
pub mod Spent
pub mod Once
pub mod Current
mod Spelled
mod Tests
