-- ===== src/Daemon/Operations.antt =====
-- The operations of `DaemonCore` (packages/daemon/src/api.ts) that look a session up, make one,
-- wait for it, edit it and delete it. The ids that the code mints and the present time are
-- arguments.
mod Sessions
mod Edits
unfoldable pub use Sessions.*
unfoldable pub use Edits.*
