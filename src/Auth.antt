-- ===== src/Auth.antt =====
-- Authentication (backend/internal/auth): refresh tokens, passwords and TOTP.
pub mod ConstantTime
pub mod Refresh
