-- ===== src/Proto/Wire/Utf8.antt =====
-- Which byte strings are UTF-8: the test of Rust's `String::from_utf8` and `str::from_utf8`.
use syntra.Prelude.{
  ℕ, zero, suc, ◌≡◌, refl, Bool, true, false, ◌&&◌, Option, none, some, [], ◌∷◌, ltb, leb, ◌==◌,
  if◌then◌else◌,
}
use syntra.Proto.Error.{Bytes}

-- What follows a lead byte: how many continuation bytes, and the range of the first of them.
lead : ℕ → Option (ℕ × ℕ × ℕ)
lead b =
    if ltb b 0x80
    then some (0, 0x80, 0xbf)
    else if leb 0xc2 b && leb b 0xdf
    then some (1, 0x80, 0xbf)
    else if b == 0xe0
    then some (2, 0xa0, 0xbf)
    else if b == 0xed
    then some (2, 0x80, 0x9f)
    else if leb 0xe1 b && leb b 0xef
    then some (2, 0x80, 0xbf)
    else if b == 0xf0
    then some (3, 0x90, 0xbf)
    else if leb 0xf1 b && leb b 0xf3
    then some (3, 0x80, 0xbf)
    else if b == 0xf4
    then some (3, 0x80, 0x8f)
    else none

utf8_from : ℕ → ℕ → ℕ → Bytes → Bool
unfolding lead
utf8_from zero lo hi [] = true
utf8_from zero lo hi (b ∷ bs) = elim (lead b) [
  | none ↦ false
  | some (need, lo', hi') ↦ utf8_from need lo' hi' bs
]
utf8_from (suc need) lo hi [] = false
utf8_from (suc need) lo hi (b ∷ bs) = (leb lo b && leb b hi) && utf8_from need 0x80 0xbf bs

unfoldable pub is_utf8 : Bytes → Bool
unfolding utf8_from
is_utf8 bs = utf8_from 0 0x80 0xbf bs

accepts_two_bytes : is_utf8 (b'a' ∷ 0xc2 ∷ 0xb9 ∷ []) ≡ true
unfolding is_utf8
accepts_two_bytes = refl

rejects_cut_sequence : is_utf8 (b'a' ∷ 0xc2 ∷ []) ≡ false
unfolding is_utf8
rejects_cut_sequence = refl
