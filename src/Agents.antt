-- ===== src/Agents.antt =====
-- The life of a submission to an agent: the turn of its harness (packages/daemon/src/agent-turn.ts),
-- its own states (packages/schema/src/agent-submission.ts) and the receipts of the operations that
-- made it (packages/daemon/src/operation-receipts.ts).
pub mod Turn
pub mod Submission
pub mod Receipts
pub mod Replay
pub mod Acceptance
