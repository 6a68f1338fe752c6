-- ===== src/Anchors.antt =====
-- The anchors of quotes: packages/schema/src/fuzzy.ts and packages/schema/src/anchor.ts.
pub mod Distance
pub mod Optimal
pub mod Fuzzy
pub mod Windows
pub mod Rounds
pub mod Best
pub mod Blocks
pub mod Exact
pub mod Spans
pub mod Resolve
pub mod Matches
pub mod Picks
pub mod Quoted
pub mod Again
pub mod Binding
pub mod Bound
pub mod Located
pub mod Order
pub mod Blank
pub mod Within
