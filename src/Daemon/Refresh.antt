-- ===== src/Daemon/Refresh.antt =====
-- The hot reload of a diff session in `DaemonCore` (packages/daemon/src/api.ts). A capture yields
-- the event loop, so that a refresh is two steps: the one up to the `await`, and the one that
-- takes what was captured. Between them the other operations run.
mod Captures
mod Pulls
unfoldable pub use Captures.*
unfoldable pub use Pulls.*
