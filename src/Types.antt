-- ===== src/Types.antt =====
-- The data that every part exchanges: packages/schema/src/types.ts and thread-agent.ts.
mod Review
mod Agent
mod ThreadRecord
pub use Review.*
pub use Agent.*
pub use ThreadRecord.*
