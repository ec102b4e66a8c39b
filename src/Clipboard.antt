-- ===== src/Clipboard.antt =====
-- crates/syntra-core/src/clipboard.rs: the clipboard of this device.
pub mod State
pub mod Echo
mod Examples
