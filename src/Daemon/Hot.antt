-- ===== src/Daemon/Hot.antt =====
-- The hot reload of packages/daemon/src/api.ts keeps the ids of the sessions distinct, and nobody
-- parked for a session that is not open.
mod Stays
mod Kept
unfoldable pub use Stays.*
unfoldable pub use Kept.*
