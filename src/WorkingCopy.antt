-- ===== src/WorkingCopy.antt =====
-- The cuts of a working copy (packages/schema/src/working-copy.ts).
pub mod Cuts
pub mod Ranges
pub mod Outside
pub mod Apply
pub mod Merge
