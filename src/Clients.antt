-- ===== src/Clients.antt =====
-- crates/syntra-core/src/client.rs: the table of the devices that the user has set up.
pub mod Entry
pub mod Manager
mod Maps
mod Calls
mod Changes
mod Additions
mod Refinement
mod Handles
mod Addresses
mod RoundTrip
mod Routes
mod Examples
