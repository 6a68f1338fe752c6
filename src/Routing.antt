-- ===== src/Routing.antt =====
-- The durable routing of Messages to harnesses (packages/daemon/src/harness-state-store.ts).
pub mod Store
pub mod Invariant
pub mod Once
pub mod Handed
