-- ===== src/Proto/Encode/Pointer.antt =====
-- crates/syntra-proto/src/lib.rs: the arms of `encode` for input and for moving the pointer between
-- devices.
use Prim.Native.Nat.{min}
use syntra.Prelude.{ℕ, Bool, [], ◌∷◌, concat, length, take}
use syntra.Proto.Error.{Bytes}
use syntra.Proto.Limits.{max_handoff_target}
use syntra.Proto.Wire.{put_u8, put_u16, put_u32, put_i32, put_f64, u8_of_bool, as_u16}
use syntra.Proto.Event.{
  Position, left, right, top, bottom, InputEvent, pointer, keyboard, motion, button, axis,
  axis_discrete120, key, modifiers,
}

-- `position as u8`
unfoldable pub byte_of_position : Position → ℕ
byte_of_position left = 0
byte_of_position right = 1
byte_of_position top = 2
byte_of_position bottom = 3

unfoldable pub input : InputEvent → Bytes
input (pointer (motion time dx dy)) = concat (put_u32 time ∷ put_f64 dx ∷ put_f64 dy ∷ [])
input (pointer (button time b state)) = concat (put_u32 time ∷ put_u32 b ∷ put_u32 state ∷ [])
input (pointer (axis time a value)) = concat (put_u32 time ∷ put_u8 a ∷ put_f64 value ∷ [])
input (pointer (axis_discrete120 a value)) = concat (put_u8 a ∷ put_i32 value ∷ [])
input (keyboard (key time k state)) = concat (put_u32 time ∷ put_u32 k ∷ put_u8 state ∷ [])
input (keyboard (modifiers depressed latched locked group)) =
    concat (put_u32 depressed ∷ put_u32 latched ∷ put_u32 locked ∷ put_u32 group ∷ [])

unfoldable pub pong : Bool → Bytes
pong alive = put_u8 (u8_of_bool alive)

unfoldable pub enter : Position → Bytes
enter position = put_u8 (byte_of_position position)

-- The one field of `Leave`, `Ack`, `InputCapabilities` and `LeaveAt`.
unfoldable pub serial : ℕ → Bytes
serial n = concat (put_u32 n ∷ [])

unfoldable pub enter_at : Position → ℕ → Bytes
enter_at side along = concat (put_u8 (byte_of_position side) ∷ put_u32 along ∷ [])

-- `Handoff` and `EnterVia`: an overlong target is cut.
unfoldable pub target : Position → Bytes → Bytes
target side bytes =
    let len = min (length bytes) max_handoff_target in
    concat (put_u8 (byte_of_position side) ∷ put_u16 (as_u16 len) ∷ take len bytes ∷ [])
