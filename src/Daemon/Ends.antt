-- ===== src/Daemon/Ends.antt =====
-- The requests of packages/daemon/src/api.ts that decide, revise and fork a session keep the ids of
-- the sessions distinct, and nobody parked for a session that is not open.
mod Sent
mod Revised
unfoldable pub use Sent.*
unfoldable pub use Revised.*
