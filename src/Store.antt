-- ===== src/Store.antt =====
-- packages/daemon/src/store.ts: the logs of the Threads, with the check of a record that is read
-- (packages/daemon/src/validate.ts). The text of a record and its parsing, the shape of its single
-- fields, and the path of its log are parameters.
pub mod Accepted
pub mod Logs
pub mod Durable
pub mod Refined
pub mod Torn
pub mod Lines
pub mod Listed
pub mod Recovered
