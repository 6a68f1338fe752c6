-- ===== src/Daemon.antt =====
-- The operations of the daemon on Threads (packages/daemon/src/api.ts).
pub mod Core
pub mod Entries
pub mod Merging
pub mod Tracking
pub mod Operations
pub mod Messages
pub mod Trees
pub mod Harness
pub mod Refresh
pub mod Sound
pub mod Calls
pub mod Stay
pub mod MergeStays
pub mod Changes
pub mod Refused
pub mod Preserved
pub mod Sending
pub mod Recorded
pub mod Decided
pub mod Retried
pub mod Parting
pub mod Steps
pub mod Kept
pub mod Ends
pub mod Hot
pub mod Invariant
pub mod Stale
pub mod Drift
