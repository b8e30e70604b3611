-- ===== src/Core.antt =====
-- crates/gmr-core: addresses, probes, anchors and journals.
pub mod Addr
pub mod Probe
pub mod Anchor
pub mod Journal
pub mod Memory
