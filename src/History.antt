-- ===== src/History.antt =====
-- The history of a thread: an append-only tree of entries (packages/schema/src/history.ts).
pub mod Defs
pub mod Validate
pub mod Derive
pub mod Writes
pub mod Walks
pub mod Valid
pub mod Growth
pub mod Append
pub mod Moves
pub mod Steps
pub mod Views
pub mod Linear
