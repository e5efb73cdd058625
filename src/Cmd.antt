-- ===== src/Cmd.antt =====
-- The programs under backend/cmd.
pub mod Seed
pub mod Server
pub mod Migrate
