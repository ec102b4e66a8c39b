-- ===== src/Profiles.antt =====
-- crates/syntra-core/src/peer_profile.rs: the names and pictures of other devices.
mod Reassembler
mod Slots
mod Avatars
mod Runs
mod Examples
