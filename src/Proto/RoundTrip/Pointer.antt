-- ===== src/Proto/RoundTrip/Pointer.antt =====
-- Round trips of the pointer and keyboard messages of crates/syntra-proto.
use syntra.Prelude.{
  ℕ, ◌<◌, ◌^◌, ◌≡◌, refl, Bool, true, false, [], ◌∷◌, ◌++◌, arith, length, concat, ltb, min, take,
  length-take,
}
use syntra.Prelude.Int.{ℤ}
use syntra.Proto.Error.{Bytes, ok}
use syntra.Proto.Wire.{◌>>=◌, put_u32, as_u16, from_utf8}
use syntra.Proto.Wire.Utf8.{is_utf8}
use syntra.Proto.Wire.Scalars.{
  IsI32, get_u8-put, get_u16-put, get_u32-put, get_i32-put, get_f64-put, take-append,
}
use syntra.Proto.Event.{
  ProtoEvent, Position, left, right, top, bottom, InputEvent, PointerEvent, KeyboardEvent,
}
use syntra.Proto.Encode.Pointer as Encode
use syntra.Proto.Decode.Pointer as Decode
use syntra.Proto.RoundTrip.Basic.{IsU8, IsU32, IsU64}

abbrev pub IsInput : InputEvent → Type 0
IsInput (InputEvent.pointer (PointerEvent.motion time dx dy)) = IsU32 time × IsU64 dx × IsU64 dy
IsInput (InputEvent.pointer (PointerEvent.button time b state)) = IsU32 time × IsU32 b × IsU32 state
IsInput (InputEvent.pointer (PointerEvent.axis time a value)) = IsU32 time × IsU8 a × IsU64 value
IsInput (InputEvent.pointer (PointerEvent.axis_discrete120 a value)) = IsU8 a × IsI32 value
IsInput (InputEvent.keyboard (KeyboardEvent.key time k state)) = IsU32 time × IsU32 k × IsU8 state
IsInput (InputEvent.keyboard (KeyboardEvent.modifiers d l k g)) =
    IsU32 d × IsU32 l × IsU32 k × IsU32 g

module _ (time : ℕ) (ht : IsU32 time) where
  pub motion-round_trip :
      (dx dy : ℕ)
      → IsU64 dx
      → IsU64 dy
      → let e = InputEvent.pointer (PointerEvent.motion time dx dy) in
        Decode.motion (Encode.input e) ≡ ok (ProtoEvent.input e, [])
  unfolding Encode.input Decode.motion ◌>>=◌
  motion-round_trip dx dy hx hy =
      rw (get_u32-put _ time ht, get_f64-put _ dx hx, get_f64-put _ dy hy)

  pub button-round_trip :
      (b state : ℕ)
      → IsU32 b
      → IsU32 state
      → let e = InputEvent.pointer (PointerEvent.button time b state) in
        Decode.button (Encode.input e) ≡ ok (ProtoEvent.input e, [])
  unfolding Encode.input Decode.button ◌>>=◌
  button-round_trip b state hb hs =
      rw (get_u32-put _ time ht, get_u32-put _ b hb, get_u32-put _ state hs)

  pub axis-round_trip :
      (a value : ℕ)
      → IsU64 value
      → let e = InputEvent.pointer (PointerEvent.axis time a value) in
        Decode.axis (Encode.input e) ≡ ok (ProtoEvent.input e, [])
  unfolding Encode.input Decode.axis ◌>>=◌
  axis-round_trip a value hv = rw (get_u32-put _ time ht, get_u8-put _ a, get_f64-put _ value hv)

  pub key-round_trip :
      (k state : ℕ)
      → IsU32 k
      → let e = InputEvent.keyboard (KeyboardEvent.key time k state) in
        Decode.key (Encode.input e) ≡ ok (ProtoEvent.input e, [])
  unfolding Encode.input Decode.key ◌>>=◌
  key-round_trip k state hk = rw (get_u32-put _ time ht, get_u32-put _ k hk, get_u8-put _ state)

pub axis_value120-round_trip :
    (a : ℕ) (value : ℤ)
    → IsI32 value
    → let e = InputEvent.pointer (PointerEvent.axis_discrete120 a value) in
      Decode.axis_value120 (Encode.input e) ≡ ok (ProtoEvent.input e, [])
unfolding Encode.input Decode.axis_value120 ◌>>=◌
axis_value120-round_trip a value hv = rw (get_u8-put _ a, get_i32-put _ value hv)

pub modifiers-round_trip :
    (d l k g : ℕ)
    → IsU32 d
    → IsU32 l
    → IsU32 k
    → IsU32 g
    → let e = InputEvent.keyboard (KeyboardEvent.modifiers d l k g) in
      Decode.modifiers (Encode.input e) ≡ ok (ProtoEvent.input e, [])
unfolding Encode.input Decode.modifiers ◌>>=◌
modifiers-round_trip d l k g hd hl hk hg =
    rw (get_u32-put _ d hd, get_u32-put _ l hl, get_u32-put _ k hk, get_u32-put _ g hg)

position_of_byte-byte : (p : Position) → Decode.position_of_byte (Encode.byte_of_position p) ≡ ok p
unfolding Decode.position_of_byte Encode.byte_of_position
position_of_byte-byte left = refl
position_of_byte-byte right = refl
position_of_byte-byte top = refl
position_of_byte-byte bottom = refl

get_position-put :
    (rest : Bytes) (p : Position)
    → Decode.get_position (Encode.byte_of_position p ∷ rest) ≡ ok (p, rest)
unfolding Decode.get_position ◌>>=◌
get_position-put rest p = rw (get_u8-put rest (Encode.byte_of_position p), position_of_byte-byte p)

pub enter-round_trip : (p : Position) → Decode.enter (Encode.enter p) ≡ ok (ProtoEvent.enter p, [])
unfolding Encode.enter Decode.enter ◌>>=◌
enter-round_trip p = rw (get_position-put [] p)

pub pong-round_trip : (b : Bool) → Decode.pong (Encode.pong b) ≡ ok (ProtoEvent.pong b, [])
unfolding Encode.pong Decode.pong ◌>>=◌
pong-round_trip true = rw (get_u8-put [] 1)
pong-round_trip false = rw (get_u8-put [] 0)

pub serial-round_trip :
    (event : ℕ → ProtoEvent) (n : ℕ)
    → IsU32 n
    → Decode.serial event (Encode.serial n) ≡ ok (event n, [])
unfolding Encode.serial Decode.serial ◌>>=◌
serial-round_trip event n h = rw (get_u32-put [] n h)

module _ (along : ℕ) (fits : IsU32 along) (finite : Decode.is_finite along ≡ true) where
  get_along-put :
      (rest : Bytes) → Decode.get_along (put_u32 along ++ rest) ≡ ok (Decode.clamp_unit along, rest)
  unfolding Decode.get_along ◌>>=◌
  get_along-put rest = rw (get_u32-put rest along fits, finite)

  pub leave_at-round_trip :
      Decode.leave_at (Encode.serial along) ≡ ok (ProtoEvent.leave_at (Decode.clamp_unit along), [])
  unfolding Encode.serial Decode.leave_at ◌>>=◌
  leave_at-round_trip = rw (get_along-put [])

  pub enter_at-round_trip :
      (side : Position)
      → Decode.enter_at (Encode.enter_at side along)
        ≡ ok (ProtoEvent.enter_at side (Decode.clamp_unit along), [])
  unfolding Encode.enter_at Decode.enter_at ◌>>=◌
  enter_at-round_trip side = rw (get_position-put _ side, get_along-put [])

cut_tests :
    (n : ℕ)
    → (as_u16 (min n 128) ≡ min n 128) × (min n 128 < 2 ^ 16) × (ltb 128 (min n 128) ≡ false)
cut_tests n = (omega arith, omega arith, ground arith)

length-cut : (bytes : Bytes) → length (take (min (length bytes) 128) bytes) ≡ min (length bytes) 128
length-cut bytes = omega (arith, length-take (min (length bytes) 128) bytes)

-- The text that arrives, whether cut or not, has to be UTF-8.
pub target-round_trip :
    (event : Position → Bytes → ProtoEvent) (side : Position) (bytes : Bytes)
    → is_utf8 (take (min (length bytes) 128) bytes) ≡ true
    → Decode.target event (Encode.target side bytes)
      ≡ ok (event side (take (min (length bytes) 128) bytes), [])
unfolding Encode.target Decode.target ◌>>=◌ from_utf8
target-round_trip event side bytes text =
    let (cast, fits, passes) = cut_tests (length bytes) in
    rw (
      get_position-put _ side,
      cast,
      get_u16-put _ (min (length bytes) 128) fits,
      passes,
      take-append (min (length bytes) 128) (take (min (length bytes) 128) bytes) []
          (length-cut bytes),
      text,
    )

pub hello-round_trip :
    (commit : Bytes)
    → length commit ≡ 8
    → Decode.hello (concat (commit ∷ [])) ≡ ok (ProtoEvent.hello commit, [])
unfolding Decode.hello ◌>>=◌
hello-round_trip commit h = rw (take-append 8 commit [] h)
