-- ===== src/Daemon/Messages.antt =====
-- `sessionSendMessage` and `sessionSubmitRevision` of `DaemonCore` (packages/daemon/src/api.ts).
-- The SHA-256 digest, JSON.stringify, the text of the feedback (packages/schema/src/feedback.ts)
-- and the test that a quote is found in a revision (packages/schema/src/anchor.ts) are parameters.
mod Sends
mod Revisions
unfoldable pub use Sends.*
unfoldable pub use Revisions.*
