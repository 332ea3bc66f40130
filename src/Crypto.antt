-- ===== src/Crypto.antt =====
-- The encryption of stored credentials, backend/app/services/crypto.py.
--
-- Fernet is a parameter, and so is the derivation of its key from a configured one (SHA-256 and base64).
pub mod Keys
pub mod Rotation
mod Tests
