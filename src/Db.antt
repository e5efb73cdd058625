-- ===== src/Db.antt =====
-- The database (backend/migrations) and the way the handlers use it.
mod Schema
mod Monad
mod Step
unfoldable pub use Schema.*
unfoldable pub use Monad.*
pub use Step.*
