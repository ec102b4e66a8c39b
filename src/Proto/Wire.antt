-- ===== src/Proto/Wire.antt =====
-- crates/syntra-proto/src/wire.rs: the scalars of the wire format. A `put` function returns the
-- bytes that the source's function appends to its buffer. A decoder returns what it read and the
-- rest of the buffer, or the error.
pub mod Utf8
pub mod Scalars
pub mod Optional
use syntra.Prelude.{
  ℕ, zero, suc, ◌+◌, ◌-◌, ◌*◌, ◌/◌, ◌%◌, ◌^◌, Bool, true, false, ◌||◌, Option, none, some, List, [],
  ◌∷◌, ◌++◌, ltb, ◌==◌, if◌then◌else◌, is_empty, length, take as take_front, drop, String,
}
use syntra.Prelude.Int.{ℤ, pos, negsuc}
use syntra.Proto.Error.{
  Bytes, Result, ok, err, truncated, invalid_boolean, invalid_history, fail_if,
}
use syntra.Proto.Error
use syntra.Proto.Wire.Utf8.{is_utf8}

-- What a function on `&mut &[u8]` does: it fails, or returns a value and what it left unread.
abbrev pub Decoder {ℓ} : Type ℓ → Type ℓ
Decoder A = Bytes → Result (A × Bytes)

module _ {ℓ} {A : Type ℓ} where
  unfoldable pub pure : A → Decoder A
  pure a buf = ok (a, buf)

  abbrev pub lift_result : Bytes → Result A → Result (A × Bytes)
  lift_result buf (ok a) = ok (a, buf)
  lift_result buf (err e) = err e

  -- A call, followed by `?`, of a function that does not read the buffer.
  unfoldable pub lift : Result A → Decoder A
  lift r buf = lift_result buf r

module _ {ℓ κ} {A : Type ℓ} {B : Type κ} where
  abbrev pub continue : (A → Decoder B) → Result (A × Bytes) → Result (B × Bytes)
  continue f (ok (a, rest)) = f a rest
  continue f (err e) = err e

  infixl 5 ◌>>=◌
  -- Opening this opens `pure` and `lift` too.
  unfoldable pub ◌>>=◌ : Decoder A → (A → Decoder B) → Decoder B
  unfolding pure lift
  ◌>>=◌ m f buf = continue f (m buf)

infixl 5 ◌>>◌
abbrev pub ◌>>◌ {κ} : {B : Type κ} → Decoder (Unit {0}) → Decoder B → Decoder B
m >> k = m >>= λ _. k

-- Big-endian bytes, the most significant first.
unfoldable pub to_be_bytes : ℕ → ℕ → Bytes
to_be_bytes zero v = []
to_be_bytes (suc w) v = to_be_bytes w (v / 256) ++ v % 256 ∷ []

from_be : ℕ → Bytes → ℕ
from_be acc [] = acc
from_be acc (b ∷ bs) = from_be (acc * 256 + b) bs

unfoldable pub from_be_bytes : Bytes → ℕ
unfolding from_be
from_be_bytes bs = from_be 0 bs

-- Splits `len` bytes off the front.
unfoldable pub take : ℕ → Decoder Bytes
take len buf = if ltb (length buf) len then err truncated else ok (take_front len buf, drop len buf)

-- `std::mem::take(&mut buf).to_vec()`
unfoldable pub take_rest : Decoder Bytes
take_rest buf = ok (buf, [])

-- `u{8w}::from_be_bytes(take(buf, w)?)`
unfoldable pub get_be : ℕ → Decoder ℕ
unfolding ◌>>=◌
get_be w = do bytes ← take w; pure (from_be_bytes bytes)

unfoldable pub get_u8 : Decoder ℕ
unfolding get_be
get_u8 = get_be 1

unfoldable pub get_u16 : Decoder ℕ
unfolding get_be
get_u16 = get_be 2

unfoldable pub get_u32 : Decoder ℕ
unfolding get_be
get_u32 = get_be 4

unfoldable pub get_u64 : Decoder ℕ
unfolding get_be
get_u64 = get_be 8

-- The two's complement reading of 32 bits.
unfoldable pub i32_of_bits : ℕ → ℤ
i32_of_bits b = if ltb b (2 ^ 31) then pos b else negsuc (2 ^ 32 - b - 1)

unfoldable pub bits_of_i32 : ℤ → ℕ
bits_of_i32 (pos n) = n
bits_of_i32 (negsuc n) = 2 ^ 32 - n - 1

unfoldable pub get_i32 : Decoder ℤ
unfolding ◌>>=◌
get_i32 = do b ← get_be 4; pure (i32_of_bits b)

-- A double is its 64 bits: `from_be_bytes` and `to_be_bytes` keep every bit.
unfoldable pub get_f64 : Decoder ℕ
unfolding get_be
get_f64 = get_be 8

bool_of_byte : ℕ → Result Bool
bool_of_byte b = if b == 0 then ok false else if b == 1 then ok true else err (invalid_boolean b)

unfoldable pub get_bool : Decoder Bool
unfolding ◌>>=◌ bool_of_byte
get_bool = do b ← get_u8; lift (bool_of_byte b)

-- `buf.push`
abbrev pub put_u8 : ℕ → Bytes
put_u8 v = v ∷ []

unfoldable pub put_u16 : ℕ → Bytes
unfolding to_be_bytes
put_u16 v = to_be_bytes 2 v

unfoldable pub put_u32 : ℕ → Bytes
unfolding to_be_bytes
put_u32 v = to_be_bytes 4 v

unfoldable pub put_u64 : ℕ → Bytes
unfolding to_be_bytes
put_u64 v = to_be_bytes 8 v

unfoldable pub put_i32 : ℤ → Bytes
unfolding to_be_bytes
put_i32 v = to_be_bytes 4 (bits_of_i32 v)

unfoldable pub put_f64 : ℕ → Bytes
unfolding to_be_bytes
put_f64 v = to_be_bytes 8 v

-- `b as u8`
abbrev pub u8_of_bool : Bool → ℕ
u8_of_bool true = 1
u8_of_bool false = 0

-- `n as u16`
abbrev pub as_u16 : ℕ → ℕ
as_u16 n = n % 2 ^ 16

unfoldable pub put_optional_u64 : Option ℕ → Bytes
put_optional_u64 none = put_u8 0
put_optional_u64 (some value) = put_u8 1 ++ put_u64 value

unfoldable pub get_optional_u64 : Decoder (Option ℕ)
unfolding ◌>>=◌
get_optional_u64 = do
  present ← get_bool
  if present then (do value ← get_u64; pure (some value)) else pure none

-- The longest string that a length of two bytes can announce.
abbrev pub u16_max : ℕ
u16_max = 2 ^ 16 - 1

put_string : Bytes → Result Bytes
put_string value =
    if is_empty value || ltb u16_max (length value)
    then err (invalid_history "invalid error string")
    else ok (put_u16 (as_u16 (length value)) ++ value)

unfoldable pub put_optional_string : Option Bytes → Result Bytes
unfolding put_string
put_optional_string none = ok (put_u16 0)
put_optional_string (some value) = put_string value

-- `str::from_utf8(bytes).map_err(e)`
unfoldable pub from_utf8 : Bytes → Error.ProtocolError → Result Bytes
from_utf8 bytes e = if is_utf8 bytes then ok bytes else err e

unfoldable pub get_optional_string : Decoder (Option Bytes)
unfolding ◌>>=◌
get_optional_string = do
  len ← get_u16
  if len == 0 then pure none else do
    bytes ← take len
    value ← lift (from_utf8 bytes (invalid_history "non-UTF-8 error string"))
    pure (some value)
