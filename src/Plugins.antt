-- ===== src/Plugins.antt =====
-- crates/syntra-plugin-api: what a plugin claims to be, and may be.
mod Capabilities
mod Grants
mod Settings
mod Choices
mod Manifest
mod Sound
mod Examples
