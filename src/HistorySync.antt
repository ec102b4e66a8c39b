-- ===== src/HistorySync.antt =====
-- crates/syntra-core/src/history_sync.rs: clipboard history shared between devices.
pub mod Reassembler
pub mod Slots
pub mod Records
pub mod Invariant
pub mod Retain
pub mod Runs
pub mod Pieces
pub mod Awaits
pub mod Delivery
pub mod Sending
pub mod Exchange
pub mod Discard
mod Examples
pub mod Clear
pub mod Boundaries
pub mod Coordinator
