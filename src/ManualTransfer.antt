-- ===== src/ManualTransfer.antt =====
-- crates/syntra-core/src/manual_transfer.rs: files that the user sends to another device.
pub mod Files
pub mod Record
pub mod Sender
pub mod Receiver
pub mod Table
pub mod Messages
pub mod Requests
pub mod Clock
mod Ended
mod Conversation
mod Sends
mod Receives
mod Pull
mod Handshake
mod Expiry
mod Intact
mod Remembered
mod Capacity
mod Calls
mod Everywhere
mod Afterwards
mod Digest
mod Admission
mod Examples
