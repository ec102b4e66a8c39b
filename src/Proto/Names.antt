-- ===== src/Proto/Names.antt =====
-- crates/syntra-proto/src/lib.rs: `validate_manual_file_name` and `validate_path`, over the UTF-8
-- bytes of the name.
pub mod Parts
pub mod Safe
use syntra.Prelude.{
  ℕ, ◌-◌, ◌+◌, Bool, true, false, ◌&&◌, ◌||◌, Option, none, some, List, [], ◌∷◌, ltb, leb, ◌==◌,
  if◌then◌else◌, length, is_empty, any, bytes_eq, take, drop, map,
}
use syntra.Proto.Error.{Bytes, Result, ok, err, invalid_path, too_large, fail_if, ◌>>=◌, ◌>>◌}
use syntra.Proto.Limits.{max_manual_file_name_size, max_clipboard_path_size}

unfoldable pub starts_with : ℕ → Bytes → Bool
starts_with c [] = false
starts_with c (b ∷ bs) = b == c

unfoldable pub ends_with : ℕ → Bytes → Bool
ends_with c [] = false
ends_with c (b ∷ []) = b == c
ends_with c (b ∷ x ∷ bs) = ends_with c (x ∷ bs)

unfoldable pub contains : ℕ → Bytes → Bool
contains c bs = any (λ b. b == c) bs

abbrev is_ascii_control : ℕ → Bool
is_ascii_control b = ltb b 0x20 || b == 0x7f

abbrev is_reserved_byte : ℕ → Bool
is_reserved_byte b =
    (b == b'<' || b == b'>')
    || ((b == b':' || b == 0x22) || (b == b'|' || (b == b'?' || b == b'*')))

-- `name.split(sep)`
split_step : Bool → ℕ → List Bytes → List Bytes
split_step true b parts = [] ∷ parts
split_step false b [] = (b ∷ []) ∷ []
split_step false b (p ∷ parts) = (b ∷ p) ∷ parts

unfoldable pub split : ℕ → Bytes → List Bytes
unfolding split_step
split sep [] = [] ∷ []
split sep (b ∷ bs) = split_step (b == sep) b (split sep bs)

first_or : Bytes → List Bytes → Bytes
first_or name [] = name
first_or name (p ∷ parts) = p

-- `s.trim_end_matches(' ')`
cons_unless_blank : ℕ → Bytes → Bytes
cons_unless_blank b [] = if b == b' ' then [] else b ∷ []
cons_unless_blank b (x ∷ bs) = b ∷ x ∷ bs

unfoldable pub trim_end_spaces : Bytes → Bytes
unfolding cons_unless_blank
trim_end_spaces [] = []
trim_end_spaces (b ∷ bs) = cons_unless_blank b (trim_end_spaces bs)

abbrev to_ascii_upper : ℕ → ℕ
to_ascii_upper b = if leb b'a' b && leb b b'z' then b - 32 else b

unfoldable pub eq_ignore_ascii_case : Bytes → Bytes → Bool
unfolding bytes_eq
eq_ignore_ascii_case a b = bytes_eq (map to_ascii_upper a) (map to_ascii_upper b)

abbrev reserved_stems : List Bytes
reserved_stems =
    (b'C' ∷ b'O' ∷ b'N' ∷ [])
    ∷ (b'P' ∷ b'R' ∷ b'N' ∷ [])
    ∷ (b'A' ∷ b'U' ∷ b'X' ∷ [])
    ∷ (b'N' ∷ b'U' ∷ b'L' ∷ [])
    ∷ []

-- "1" to "9", and the superscripts one, two and three.
abbrev is_device_number : Bytes → Bool
is_device_number (b ∷ []) = leb b'1' b && leb b b'9'
is_device_number (a ∷ b ∷ []) = a == 0xc2 && (b == 0xb9 || (b == 0xb2 || b == 0xb3))
is_device_number _ = false

-- `stem.get(..3)` is there where byte 3 begins a character, which it does after three ASCII letters.
unfoldable pub is_device_stem : Bytes → Bool
unfolding eq_ignore_ascii_case
is_device_stem stem =
    let prefix = take 3 stem in
    any (λ r. eq_ignore_ascii_case stem r) reserved_stems
    || ((eq_ignore_ascii_case prefix (b'C' ∷ b'O' ∷ b'M' ∷ [])
          || eq_ignore_ascii_case prefix (b'L' ∷ b'P' ∷ b'T' ∷ []))
        && is_device_number (drop 3 stem))

-- What comes before the first dot, without trailing blanks.
unfoldable pub stem_of : Bytes → Bytes
unfolding first_or
stem_of name = trim_end_spaces (first_or name (split b'.' name))

-- The first condition of `validate_manual_file_name`.
unfoldable pub has_bad_shape : Bytes → Bool
has_bad_shape name =
    (is_empty name || ltb max_manual_file_name_size (length name))
    || ((bytes_eq name (b'.' ∷ []) || bytes_eq name (b'.' ∷ b'.' ∷ []))
        || ((starts_with b'/' name || (contains b'/' name || contains 0x5c name))
            || ((ends_with b'.' name || ends_with b' ' name)
                || (any (λ b. b == 0 || is_ascii_control b) name || any is_reserved_byte name))))

unfoldable pub validate_manual_file_name : Bytes → Result (Unit {0})
validate_manual_file_name name = do
  fail_if (has_bad_shape name) (invalid_path name)
  fail_if (is_device_stem (stem_of name)) (invalid_path name)

abbrev is_bad_part : Bytes → Bool
is_bad_part part = is_empty part || (bytes_eq part (b'.' ∷ []) || bytes_eq part (b'.' ∷ b'.' ∷ []))

unfoldable pub validate_path : Bytes → Result (Unit {0})
validate_path path = do
  fail_if (ltb max_clipboard_path_size (length path))
      (too_large (length path) max_clipboard_path_size)
  fail_if
      (is_empty path
        || ((starts_with b'/' path || ends_with b'/' path)
            || any (λ b. b == 0x5c || (b == b':' || b == 0)) path))
      (invalid_path path)
  fail_if (any is_bad_part (split b'/' path)) (invalid_path path)
