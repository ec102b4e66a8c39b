-- ===== src/Proto/Wire/Scalars.antt =====
-- What the readers of crates/syntra-proto/src/wire.rs make of what its writers append.
use native.Mathlib.Nat.{pow-suc}
use syntra.Prelude.{
  ℕ, zero, suc, ◌+◌, ◌*◌, ◌/◌, ◌%◌, ◌^◌, ◌<◌, ◌≡◌, refl, Bool, true, false, [], ◌∷◌, ◌++◌, arith,
  length, length-append, take-length-append, drop-length-append,
}
use syntra.Prelude.Int.{ℤ, pos, negsuc}
use syntra.Proto.Error.{Bytes, ok}
use syntra.Proto.Wire.{
  ◌>>=◌, to_be_bytes, from_be, from_be_bytes, take, get_be, get_u8, get_u16, get_u32, get_u64,
  get_i32, get_f64, get_bool, put_u16, put_u32, put_u64, put_i32, put_f64, u8_of_bool, bits_of_i32,
  i32_of_bits, bool_of_byte,
}

pub length-to_be_bytes : (w v : ℕ) → length (to_be_bytes w v) ≡ w
unfolding to_be_bytes
length-to_be_bytes zero v = refl
length-to_be_bytes (suc w) v =
    omega (
      arith,
      length-append (to_be_bytes w (v / 256)) (v % 256 ∷ []),
      length-to_be_bytes w (v / 256),
    )

from_be-append :
    (acc : ℕ) (xs : Bytes) (b : ℕ) → from_be acc (xs ++ b ∷ []) ≡ from_be acc xs * 256 + b
unfolding from_be
from_be-append acc [] b = refl
from_be-append acc (x ∷ xs) b = from_be-append (acc * 256 + x) xs b

from_be-to_be : (w v : ℕ) → v < 256 ^ w → from_be 0 (to_be_bytes w v) ≡ v
unfolding to_be_bytes from_be
from_be-to_be zero v h = omega arith
from_be-to_be (suc w) v h = omega (
  arith,
  from_be-append 0 (to_be_bytes w (v / 256)) (v % 256),
  from_be-to_be w (v / 256) (below (256 ^ w) (rw pow-suc at h)),
)
  where
    below : (q : ℕ) → v < q * 256 → v / 256 < q
    below q l = omega arith

pub take-append : (n : ℕ) (xs rest : Bytes) → length xs ≡ n → take n (xs ++ rest) ≡ ok (xs, rest)
unfolding take
take-append n xs rest e =
    rw (← e) (
      ground (arith, length-append xs rest, take-length-append xs rest, drop-length-append xs rest))

get_be-to_be :
    (w v : ℕ) (rest : Bytes) → v < 256 ^ w → get_be w (to_be_bytes w v ++ rest) ≡ ok (v, rest)
unfolding get_be from_be_bytes
get_be-to_be w v rest h =
    rw (take-append w (to_be_bytes w v) rest (length-to_be_bytes w v), from_be-to_be w v h)

module _ (rest : Bytes) where
  pub get_u8-put : (v : ℕ) → get_u8 (v ∷ rest) ≡ ok (v, rest)
  unfolding get_u8 take from_be_bytes ◌>>=◌
  get_u8-put v = ground arith

  pub get_u16-put : (v : ℕ) → v < 2 ^ 16 → get_u16 (put_u16 v ++ rest) ≡ ok (v, rest)
  unfolding get_u16 put_u16
  get_u16-put v h = get_be-to_be 2 v rest h

  pub get_u32-put : (v : ℕ) → v < 2 ^ 32 → get_u32 (put_u32 v ++ rest) ≡ ok (v, rest)
  unfolding get_u32 put_u32
  get_u32-put v h = get_be-to_be 4 v rest h

  pub get_u64-put : (v : ℕ) → v < 2 ^ 64 → get_u64 (put_u64 v ++ rest) ≡ ok (v, rest)
  unfolding get_u64 put_u64
  get_u64-put v h = get_be-to_be 8 v rest h

  pub get_f64-put : (v : ℕ) → v < 2 ^ 64 → get_f64 (put_f64 v ++ rest) ≡ ok (v, rest)
  unfolding get_f64 put_f64
  get_f64-put v h = get_be-to_be 8 v rest h

  pub get_bool-put : (b : Bool) → get_bool (u8_of_bool b ∷ rest) ≡ ok (b, rest)
  unfolding get_bool bool_of_byte
  get_bool-put true = rw (get_u8-put 1)
  get_bool-put false = rw (get_u8-put 0)

-- The values of an `i32`.
abbrev pub IsI32 : ℤ → Type 0
IsI32 (pos n) = n < 2 ^ 31
IsI32 (negsuc n) = n < 2 ^ 31

i32_of_bits-bits : (v : ℤ) → IsI32 v → i32_of_bits (bits_of_i32 v) ≡ v
unfolding i32_of_bits bits_of_i32
i32_of_bits-bits (pos n) h = ground arith
i32_of_bits-bits (negsuc n) h = ground arith

bits_of_i32-lt : (v : ℤ) → IsI32 v → bits_of_i32 v < 2 ^ 32
unfolding bits_of_i32
bits_of_i32-lt (pos n) h = omega arith
bits_of_i32-lt (negsuc n) h = omega arith

pub get_i32-put : (rest : Bytes) (v : ℤ) → IsI32 v → get_i32 (put_i32 v ++ rest) ≡ ok (v, rest)
unfolding get_i32 put_i32
get_i32-put rest v h =
    rw (get_be-to_be 4 (bits_of_i32 v) rest (bits_of_i32-lt v h), i32_of_bits-bits v h)
