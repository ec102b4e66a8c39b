-- ===== src/Proto.antt =====
-- The peer protocol, crates/syntra-proto.
pub mod Error
pub mod Wire
pub mod Limits
pub mod Event
pub mod EventType
pub mod Validate
pub mod Names
pub mod Validator
pub mod Encode
pub mod Decode
pub mod RoundTrip
pub mod Accepted
pub mod Sizes
mod Examples
