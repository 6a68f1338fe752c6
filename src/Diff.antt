-- ===== src/Diff.antt =====
-- The line diff of two texts (packages/schema/src/diff.ts).
pub mod Lcs
pub mod Table
pub mod Optimal
pub mod Unified
pub mod Marks
pub mod Stats
