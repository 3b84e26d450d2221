-- ===== src/Sync.antt =====
-- crates/sync: per-peer state, one opportunity to send, the delivery rule, messages and records.
pub mod Peer
pub mod Delivery
pub mod Session
pub mod Identifiers
pub mod Messages
pub mod Records
pub mod Retention
