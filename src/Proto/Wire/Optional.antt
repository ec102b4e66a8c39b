-- ===== src/Proto/Wire/Optional.antt =====
-- Round trips of the optional values of crates/syntra-proto/src/wire.rs.
use syntra.Prelude.{
  ℕ, ◌^◌, ◌<◌, ◌≡◌, refl, true, false, Option, none, some, [], ◌∷◌, ◌++◌, ◌==◌, arith, length,
  append_assoc,
}
use syntra.Proto.Error.{Bytes, ok, ok-injective}
use syntra.Proto.Wire.{
  get_optional_u64, put_optional_u64, get_optional_string, put_optional_string, put_string, put_u16,
  from_utf8,
}
use syntra.Proto.Wire.Utf8.{is_utf8}
use syntra.Proto.Wire.Scalars.{get_u16-put, get_u64-put, get_bool-put, take-append}

-- An optional number that fits in 64 bits.
abbrev pub FitsU64 : Option ℕ → Type 0
FitsU64 none = Unit
FitsU64 (some n) = n < 2 ^ 64

pub get_optional_u64-put :
    (rest : Bytes) (o : Option ℕ)
    → FitsU64 o
    → get_optional_u64 (put_optional_u64 o ++ rest) ≡ ok (o, rest)
unfolding get_optional_u64 put_optional_u64
get_optional_u64-put rest none h = rw (get_bool-put rest false)
get_optional_u64-put rest (some n) h = rw (get_bool-put _ true, get_u64-put rest n h)

-- Text, where there is any.
abbrev pub IsText : Option Bytes → Type 0
IsText none = Unit
IsText (some s) = is_utf8 s ≡ true

put_string_inv :
    (s out : Bytes)
    → put_string s ≡ ok out
    → (0 < length s) × (length s < 2 ^ 16) × (out ≡ put_u16 (length s) ++ s)
unfolding put_string
put_string_inv [] out e = cc
put_string_inv (b ∷ s) out e = ground arith

get_some_string-put :
    (rest s : Bytes)
    → 0 < length s
    → length s < 2 ^ 16
    → is_utf8 s ≡ true
    → get_optional_string ((put_u16 (length s) ++ s) ++ rest) ≡ ok (some s, rest)
unfolding get_optional_string from_utf8
get_some_string-put rest s pos lt t = rw (
  append_assoc (put_u16 (length s)) s rest,
  get_u16-put (s ++ rest) (length s) lt,
  nonzero (length s) pos,
  take-append (length s) s rest refl,
  t,
)
  where
    nonzero : (n : ℕ) → 0 < n → (n == 0) ≡ false
    nonzero n h = ground arith

pub get_optional_string-put :
    (rest : Bytes) (o : Option Bytes) (out : Bytes)
    → IsText o
    → put_optional_string o ≡ ok out
    → get_optional_string (out ++ rest) ≡ ok (o, rest)
unfolding get_optional_string put_optional_string
get_optional_string-put rest none out t e = rw (← ok-injective e, get_u16-put rest 0 (omega arith))
get_optional_string-put rest (some s) out t e =
    let (pos, lt, q) = put_string_inv s out e in rw q (get_some_string-put rest s pos lt t)
