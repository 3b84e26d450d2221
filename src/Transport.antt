-- ===== src/Transport.antt =====
-- crates/transport: the reordering window and the stream counter, the period keys, and the wire.
pub mod Counter
pub mod Keys
pub mod Window
pub mod Wire
