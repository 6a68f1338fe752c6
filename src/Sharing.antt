-- ===== src/Sharing.antt =====
-- What a Thread shows on a branch and carries in a share (packages/schema/src/path-view.ts), and
-- who takes part in it (packages/schema/src/participants.ts).
pub mod PathView
pub mod Shown
pub mod Carried
pub mod Followed
pub mod Participants
