-- ===== src/Daemon/Preserved.antt =====
-- The requests that edit a session keep what packages/daemon/src/api.ts relies on: sessions with
-- distinct ids, and nobody parked for a session that is not open.
mod Written
mod Changed
unfoldable pub use Written.*
unfoldable pub use Changed.*
