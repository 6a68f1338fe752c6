-- ===== src/Gateway.antt =====
-- The share store of the gateway (packages/gateway/src/store.ts).
pub mod Feed
pub mod Blobs
