-- ===== src/Proto/Names/Safe.antt =====
-- What the checks on names and paths of crates/syntra-proto/src/lib.rs let through.
use syntra.Prelude.{
  ℕ, ◌≤◌, ◌≡◌, ◌≢◌, ◌↔◌, refl, sym, ap, subst, ◌∙◌, Bool, false, false≢true, ◌||◌, List, [], ◌∷◌,
  ◌++◌, arith, ltb, ◌==◌, length, is_empty, any, All, bytes_eq, bytes_eq_sound, bytes_eq_refl,
  Bool-cases, inl, inr,
}
use syntra.Proto.Error.{Bytes, ok}
use syntra.Proto.Names.{
  split, split_step, validate_path, validate_manual_file_name, starts_with, ends_with, contains,
  has_bad_shape, is_bad_part, is_reserved_byte, is_ascii_control,
}
use syntra.Proto.Names.Parts.{
  or_false, join, IsPathByte, IsComponent, split-cons, join-cons, join-split, any-All, any_of_All,
  All-split, is_bad_byte,
}

path_inv :
    (path : Bytes)
    → validate_path path ≡ ok tt
    → (length path ≤ 1024)
      × (any is_bad_byte path ≡ false)
      × (any is_bad_part (split b'/' path) ≡ false)
unfolding validate_path
path_inv path h = ground arith

bytes_ne : (xs ys : Bytes) → xs ≢ ys → bytes_eq xs ys ≡ false
bytes_ne xs ys n = elim (Bool-cases (bytes_eq xs ys)) [
  | inl h ↦ absurd (n (bytes_eq_sound xs ys h))
  | inr h ↦ h
]

ne_of_bytes : (xs ys : Bytes) → bytes_eq xs ys ≡ false → xs ≢ ys
ne_of_bytes xs ys h e = false≢true (sym h ∙ (rw e (bytes_eq_refl ys)))

good_part :
    (p : Bytes) → is_bad_part p ≡ false → (p ≢ []) × (p ≢ b'.' ∷ []) × (p ≢ b'.' ∷ b'.' ∷ [])
good_part p h =
    let (e, r) = or_false (is_empty p) _ h in
    let (d, dd) = or_false (bytes_eq p (b'.' ∷ [])) (bytes_eq p (b'.' ∷ b'.' ∷ [])) r in
    (λ q. false≢true (sym e ∙ rw q), ne_of_bytes p _ d, ne_of_bytes p _ dd)

bad_part_false : (p : Bytes) → IsComponent p → is_bad_part p ≡ false
bad_part_false [] c = absurd (c.0 refl)
bad_part_false (b ∷ p) c = rw (bytes_ne (b ∷ p) _ c.1, bytes_ne (b ∷ p) _ c.2)

components :
    (parts : List Bytes)
    → any is_bad_part parts ≡ false
    → All (All IsPathByte) parts
    → All IsComponent parts
components [] h v = tt
components (p ∷ parts) h v =
    let (e, r) = or_false (is_bad_part p) (any is_bad_part parts) h in
    let (n, d, dd) = good_part p e in ((n, d, dd, v.0), components parts r v.1)

path_byte : (b : ℕ) → is_bad_byte b ≡ false → b ≢ b'/' → IsPathByte b
path_byte b h n = (n, ground arith, ground arith, ground arith)

-- A part without a slash is split off whole.
split_part : (p : Bytes) → All IsPathByte p → split b'/' p ≡ p ∷ []
unfolding split split_step
split_part [] h = refl
split_part (b ∷ p) h = rw (ne_test b h.0.0, split_part p h.1)
  where
    ne_test : (b : ℕ) → b ≢ b'/' → (b == b'/') ≡ false
    ne_test b n = ground arith

split_parts :
    (p rest : Bytes) → All IsPathByte p → split b'/' (p ++ b'/' ∷ rest) ≡ p ∷ split b'/' rest
unfolding split split_step
split_parts [] rest h = refl
split_parts (b ∷ p) rest h = rw (ne_test b h.0.0, split_parts p rest h.1)
  where
    ne_test : (b : ℕ) → b ≢ b'/' → (b == b'/') ≡ false
    ne_test b n = ground arith

split-join :
    (p : Bytes) (parts : List Bytes)
    → All IsComponent (p ∷ parts)
    → split b'/' (join (p ∷ parts)) ≡ p ∷ parts
unfolding join
split-join p [] h = split_part p h.0.3
split-join p (q ∷ parts) h =
    split_parts p (join (q ∷ parts)) h.0.3 ∙ ap (λ ps. p ∷ ps) (split-join q parts h.1)

bad_byte_false : (b : ℕ) → IsPathByte b → is_bad_byte b ≡ false
bad_byte_false b h = ground arith

any-append :
    (t : ℕ → Bool) (xs ys : Bytes) → any t xs ≡ false → any t ys ≡ false → any t (xs ++ ys) ≡ false
any-append t [] ys h k = k
any-append t (x ∷ xs) ys h k =
    let (a, b) = or_false (t x) (any t xs) h in rw (a, any-append t xs ys b k)

bad_bytes-join :
    (p : Bytes) (parts : List Bytes)
    → All IsComponent (p ∷ parts)
    → any is_bad_byte (join (p ∷ parts)) ≡ false
unfolding join
bad_bytes-join p [] h = any_of_All is_bad_byte IsPathByte p bad_byte_false h.0.3
bad_bytes-join p (q ∷ parts) h =
    any-append is_bad_byte p (b'/' ∷ join (q ∷ parts))
      (any_of_All is_bad_byte IsPathByte p bad_byte_false h.0.3) (bad_bytes-join q parts h.1)

ends_with-part : (b : ℕ) (p : Bytes) → All IsPathByte (b ∷ p) → ends_with b'/' (b ∷ p) ≡ false
unfolding ends_with
ends_with-part b [] h = ground arith
ends_with-part b (c ∷ p) h = ends_with-part c p h.1

ends_with-append : (c b : ℕ) (xs ys : Bytes) → ends_with c (xs ++ b ∷ ys) ≡ ends_with c (b ∷ ys)
unfolding ends_with
ends_with-append c b [] ys = refl
ends_with-append c b (x ∷ []) ys = refl
ends_with-append c b (x ∷ z ∷ xs) ys = ends_with-append c b (z ∷ xs) ys

-- A component is not empty, and so is what begins with it.
join-cons_lem :
    (b : ℕ) (p : Bytes) (parts : List Bytes) → (c : Bytes) × (join ((b ∷ p) ∷ parts) ≡ b ∷ c)
unfolding join
join-cons_lem b p parts = (join (p ∷ parts), join-cons b p parts)

ends_with-join :
    (p : Bytes) (parts : List Bytes)
    → All IsComponent (p ∷ parts)
    → ends_with b'/' (join (p ∷ parts)) ≡ false
unfolding join ends_with
ends_with-join [] parts h = absurd (h.0.0 refl)
ends_with-join (b ∷ p) [] h = ends_with-part b p h.0.3
ends_with-join (b ∷ p) ([] ∷ parts) h = absurd (h.1.0.0 refl)
ends_with-join (b ∷ p) ((c ∷ q) ∷ parts) h =
    let (r, e) = join-cons_lem c q parts in
    ends_with-append b'/' b'/' (b ∷ p) (join ((c ∷ q) ∷ parts))
    ∙ (rw e (ap (ends_with b'/') (sym e) ∙ ends_with-join (c ∷ q) parts h.1))

starts_with-join :
    (p : Bytes) (parts : List Bytes)
    → All IsComponent (p ∷ parts)
    → (starts_with b'/' (join (p ∷ parts)) ≡ false) × (is_empty (join (p ∷ parts)) ≡ false)
unfolding starts_with
starts_with-join [] parts h = absurd (h.0.0 refl)
starts_with-join (b ∷ p) parts h =
    let (r, e) = join-cons_lem b p parts in (rw e (ground arith), rw e)

sound :
    (path : Bytes)
    → validate_path path ≡ ok tt
    → (p : Bytes) × (parts : List Bytes) × All IsComponent (p ∷ parts)
      × (join (p ∷ parts) ≡ path)
      × (length path ≤ 1024)
sound path h =
    let (short, bytes, parts) = path_inv path h in
    let (p, ps, e) = split-cons b'/' path in
    (
      p,
      ps,
      subst (All IsComponent) e (
          components (split b'/' path) parts (
            All-split IsPathByte path
              (any-All is_bad_byte (λ b. b ≢ b'/' → IsPathByte b) path path_byte bytes))),
      ap join (sym e) ∙ join-split path,
      short,
    )

complete_join :
    (p : Bytes) (parts : List Bytes)
    → All IsComponent (p ∷ parts)
    → length (join (p ∷ parts)) ≤ 1024
    → validate_path (join (p ∷ parts)) ≡ ok tt
unfolding validate_path
complete_join p parts c short =
    let (start, nonempty) = starts_with-join p parts c in
    rw (
      within (length (join (p ∷ parts))) short,
      nonempty,
      start,
      ends_with-join p parts c,
      bad_bytes-join p parts c,
      split-join p parts c,
      any_of_All is_bad_part IsComponent (p ∷ parts) bad_part_false c,
    )
  where
    within : (n : ℕ) → n ≤ 1024 → ltb 1024 n ≡ false
    within n h = ground arith

-- A path passes the check exactly if it is at most 1024 bytes long and made of one or more
-- components between slashes, none of them empty, "." or "..", and none with a slash, a backslash,
-- a colon or a NUL in it.
pub validate_path_iff :
    (path : Bytes)
    → (validate_path path ≡ ok tt) ↔ (
        (p : Bytes) × (parts : List Bytes) × All IsComponent (p ∷ parts)
        × (join (p ∷ parts) ≡ path)
        × (length path ≤ 1024))
validate_path_iff path = (
  sound path,
  λ s.
      subst (λ x. validate_path x ≡ ok tt) (s.3)
        (complete_join s.0 s.1 s.2 (subst (λ x. length x ≤ 1024) (sym s.3) s.4)),
)

-- What is said of the shape of a name that passed the check.
shape_inv :
    (name : Bytes)
    → validate_manual_file_name name ≡ ok tt
    → (length name ≤ 1024)
      × (is_empty name ≡ false)
      × (bytes_eq name (b'.' ∷ []) ≡ false)
      × (bytes_eq name (b'.' ∷ b'.' ∷ []) ≡ false)
      × (contains b'/' name ≡ false)
      × (contains 0x5c name ≡ false)
      × (any (λ b. b == 0 || is_ascii_control b) name ≡ false)
      × (any is_reserved_byte name ≡ false)
unfolding validate_manual_file_name has_bad_shape
shape_inv name h = ground arith

-- The four tests of the bytes, put together.
name_bytes :
    (name : Bytes)
    → contains b'/' name ≡ false
    → contains 0x5c name ≡ false
    → any (λ b. b == 0 || is_ascii_control b) name ≡ false
    → any is_reserved_byte name ≡ false
    → All IsPathByte name
unfolding contains
name_bytes [] s k c r = tt
name_bytes (b ∷ name) s k c r =
    let (s0, s1) = or_false (b == b'/') _ s in
    let (k0, k1) = or_false (b == 0x5c) _ k in
    let (c0, c1) = or_false (b == 0 || is_ascii_control b) _ c in
    let (r0, r1) = or_false (is_reserved_byte b) _ r in
    ((ground arith, ground arith, ground arith, ground arith), name_bytes name s1 k1 c1 r1)

-- A file name that passes the check of manual transfers is a path of one component, which passes
-- the check of paths too: no file name leads out of the directory it is written to.
pub manual_name-IsComponent :
    (name : Bytes)
    → validate_manual_file_name name ≡ ok tt
    → IsComponent name × (validate_path name ≡ ok tt)
manual_name-IsComponent name h =
    let (short, e, d, dd, s, k, c, r) = shape_inv name h in
    let component : IsComponent name = (
      λ q. false≢true (sym e ∙ rw q),
      ne_of_bytes name _ d,
      ne_of_bytes name _ dd,
      name_bytes name s k c r,
    ) in
    (component, unfold join in complete_join name [] (component, tt) short)
