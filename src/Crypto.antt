-- ===== src/Crypto.antt =====
-- backend/internal/crypto: access tokens and sealed secrets.
pub mod Jwt
pub mod Seal
pub mod Keys
