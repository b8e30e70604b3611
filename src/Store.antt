-- ===== src/Store.antt =====
-- crates/gmr-store: the tables behind the runtime.
pub mod Journal
pub mod Queue
pub mod Sealer
