-- ===== src/Proto/Accepted.antt =====
-- The decoder of crates/syntra-proto/src/lib.rs and the bounds of `IsAccepted`.
pub mod Rules
pub mod Event
pub mod Clipboard
pub mod Manifest
pub mod History
pub mod Manual
pub mod Profile
pub mod Pointer
use syntra.Prelude.{◌<◌, ◌==◌, sym, Bool, true, false, List}
use syntra.Proto.Wire.{Decoder, pure, ◌>>=◌}
use syntra.Proto.EventType.{EventType}
