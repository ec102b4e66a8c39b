-- ===== src/Proto/Decode/Pointer.antt =====
-- crates/syntra-proto/src/lib.rs: the arms of `decode` for input and for moving the pointer between
-- devices.
use syntra.Prelude.{ℕ, ◌/◌, ◌%◌, ◌^◌, Bool, not, ltb, ◌==◌, if◌then◌else◌}
use syntra.Proto.Error.{Bytes, Result, ok, err, truncated, invalid_position, fail_if}
use syntra.Proto.Limits.{max_handoff_target}
use syntra.Proto.Wire.{
  Decoder, pure, lift, ◌>>=◌, ◌>>◌, take, get_u8, get_u16, get_u32, get_i32, get_f64, from_utf8,
}
use syntra.Proto.Event.{
  ProtoEvent, Position, left, right, top, bottom, InputEvent, PointerEvent, KeyboardEvent,
}

unfoldable pub motion : Decoder ProtoEvent
motion = do
  time ← get_u32
  dx ← get_f64
  dy ← get_f64
  pure (ProtoEvent.input (InputEvent.pointer (PointerEvent.motion time dx dy)))

unfoldable pub button : Decoder ProtoEvent
button = do
  time ← get_u32
  b ← get_u32
  state ← get_u32
  pure (ProtoEvent.input (InputEvent.pointer (PointerEvent.button time b state)))

unfoldable pub axis : Decoder ProtoEvent
axis = do
  time ← get_u32
  a ← get_u8
  value ← get_f64
  pure (ProtoEvent.input (InputEvent.pointer (PointerEvent.axis time a value)))

unfoldable pub axis_value120 : Decoder ProtoEvent
axis_value120 = do
  a ← get_u8
  value ← get_i32
  pure (ProtoEvent.input (InputEvent.pointer (PointerEvent.axis_discrete120 a value)))

unfoldable pub key : Decoder ProtoEvent
key = do
  time ← get_u32
  k ← get_u32
  state ← get_u8
  pure (ProtoEvent.input (InputEvent.keyboard (KeyboardEvent.key time k state)))

unfoldable pub modifiers : Decoder ProtoEvent
modifiers = do
  depressed ← get_u32
  latched ← get_u32
  locked ← get_u32
  group ← get_u32
  pure (
      ProtoEvent.input
        (InputEvent.keyboard (KeyboardEvent.modifiers depressed latched locked group)))

unfoldable pub pong : Decoder ProtoEvent
pong = do b ← get_u8; pure (ProtoEvent.pong (not (b == 0)))

-- `Position::try_from(byte)`
unfoldable pub position_of_byte : ℕ → Result Position
position_of_byte b =
    if b == 0
    then ok left
    else if b == 1
    then ok right
    else if b == 2
    then ok top
    else if b == 3
    then ok bottom
    else err (invalid_position b)

unfoldable pub get_position : Decoder Position
get_position = do b ← get_u8; lift (position_of_byte b)

unfoldable pub enter : Decoder ProtoEvent
enter = do p ← get_position; pure (ProtoEvent.enter p)

-- `Leave`, `Ack` and `InputCapabilities`
unfoldable pub serial : (ℕ → ProtoEvent) → Decoder ProtoEvent
serial event = do n ← get_u32; pure (event n)

-- The sign bit, and the eight bits of the exponent, of an `f32`.
abbrev is_negative : ℕ → Bool
is_negative bits = not (ltb bits (2 ^ 31))

-- `f32::is_finite`: the exponent is not all ones.
unfoldable pub is_finite : ℕ → Bool
is_finite bits = not (bits / 2 ^ 23 % 256 == 255)

-- The bits of 1.0 and of -0.0.
abbrev pub one_bits : ℕ
one_bits = 0x3f80_0000

abbrev pub minus_zero_bits : ℕ
minus_zero_bits = 2 ^ 31

-- `f32::clamp(0.0, 1.0)` at a finite number: what is below 0.0 becomes 0.0, what is above 1.0
-- becomes 1.0, and -0.0, which is not below 0.0, stays.
unfoldable pub clamp_unit : ℕ → ℕ
clamp_unit bits =
    if is_negative bits
    then (if bits == minus_zero_bits then bits else 0)
    else if ltb one_bits bits
    then one_bits
    else bits

unfoldable pub get_along : Decoder ℕ
get_along = do
  along ← get_u32
  lift (fail_if (not (is_finite along)) truncated)
  pure (clamp_unit along)

unfoldable pub leave_at : Decoder ProtoEvent
leave_at = do along ← get_along; pure (ProtoEvent.leave_at along)

unfoldable pub enter_at : Decoder ProtoEvent
enter_at = do side ← get_position; along ← get_along; pure (ProtoEvent.enter_at side along)

-- `Handoff` and `EnterVia`
unfoldable pub target : (Position → Bytes → ProtoEvent) → Decoder ProtoEvent
target event = do
  side ← get_position
  len ← get_u16
  lift (fail_if (ltb max_handoff_target len) truncated)
  bytes ← take len
  text ← lift (from_utf8 bytes truncated)
  pure (event side text)

unfoldable pub hello : Decoder ProtoEvent
hello = do commit ← take 8; pure (ProtoEvent.hello commit)
