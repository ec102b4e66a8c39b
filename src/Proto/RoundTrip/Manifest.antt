-- ===== src/Proto/RoundTrip/Manifest.antt =====
-- Round trips of the manifest messages of crates/syntra-proto.
use syntra.Prelude.{
  ℕ, suc, ◌<◌, ◌^◌, ◌≡◌, refl, sym, subst, ◌∙◌, ap, true, false, ◌||◌, ◌&&◌, not, List, [], ◌∷◌,
  ◌++◌, arith, length, concat, ltb, leb, ◌==◌, append-nil, append_assoc, is_empty,
}
use syntra.Proto.Error.{Bytes, ok, ok-injective, fail_if}
use syntra.Proto.Wire.{◌>>=◌, put_u8, put_u16, put_u32, put_u64, u8_of_bool, as_u16, from_utf8}
use syntra.Proto.Wire.Utf8.{is_utf8}
use syntra.Proto.Wire.Scalars.{get_u8-put, get_u16-put, get_u32-put, get_u64-put, take-append}
use syntra.Proto.Event.{ProtoEvent, ClipboardManifestEntry, ClipboardEntryKind, file, directory}
use syntra.Proto.Validate.{validate_file_position}
use syntra.Proto.Names.{validate_path}
use syntra.Proto.Limits.{checked_add}
use syntra.Proto.Encode.Manifest as Encode
use syntra.Proto.Decode.Manifest as Decode
use syntra.Proto.RoundTrip.Basic.{IsU64, checked, bound, >>-eq-ok, >>=-eq-ok, fail_if-eq-ok}

-- Paths are text; ids and sizes fit in 64 bits.
abbrev pub IsEntries : List ClipboardManifestEntry → Type 0
IsEntries [] = Unit
IsEntries (e ∷ es) = (is_utf8 e.path ≡ true) × IsU64 e.file_id × IsU64 e.size × IsEntries es

kind_of_byte-byte :
    (k : ClipboardEntryKind) → Decode.kind_of_byte (u8_of_bool (Encode.is_file k)) ≡ ok k
unfolding Decode.kind_of_byte
kind_of_byte-byte file = refl
kind_of_byte-byte directory = refl

path_length : (path : Bytes) → validate_path path ≡ ok tt → ltb 1024 (length path) ≡ false
unfolding validate_path
path_length path v = ground arith

length_casts : (n : ℕ) → ltb 1024 n ≡ false → (as_u16 n ≡ n) × (n < 2 ^ 16)
length_casts n h = (ground arith, ground arith)

position_valid : (n : ℕ) → ltb 67108864 n ≡ false → validate_file_position n ≡ ok tt
unfolding validate_file_position
position_valid n h = rw h

entry_bytes-append :
    (e : ClipboardManifestEntry) (xs : Bytes)
    → Encode.entry_bytes e ++ xs
      ≡ put_u64 e.file_id
        ++ (put_u8 (u8_of_bool (Encode.is_file e.kind))
            ++ (put_u16 (as_u16 (length e.path)) ++ (e.path ++ (put_u64 e.size ++ xs))))
unfolding Encode.entry_bytes
entry_bytes-append e xs = simp (append_assoc, append-nil)

-- What the loop of the sender has checked of an entry.
record IsChecked (previous total : ℕ) (e : ClipboardManifestEntry) (total' : ℕ) : Type 0 where
  path : validate_path e.path ≡ ok tt
  ids : (e.file_id == 0 || leb e.file_id previous) ≡ false
  sum : checked_add total e.size ≡ ok total'
  within : validate_file_position total' ≡ ok tt
  kind : (not (Encode.is_file e.kind) && not (e.size == 0)) ≡ false

module _ (previous total : ℕ) (e : ClipboardManifestEntry) where
  -- The receiver reads an entry that was checked, and goes on.
  entry-round_trip :
      (total' n : ℕ) (es : List ClipboardManifestEntry) (more rest : Bytes)
      → (is_utf8 e.path ≡ true) × IsU64 e.file_id × IsU64 e.size
      → IsChecked previous total e total'
      → Decode.decode_entries n e.file_id total' more ≡ ok (es, rest)
      → Decode.decode_entries (suc n) previous total (Encode.entry_bytes e ++ more)
        ≡ ok (e ∷ es, rest)
  unfolding Decode.decode_entries ◌>>=◌ from_utf8
  entry-round_trip total' n es more rest (text, hi, hs) c next =
      let short = path_length e.path c.path in
      let (cast, fits) = length_casts (length e.path) short in
      rw (
        entry_bytes-append e more,
        get_u64-put _ e.file_id hi,
        c.ids,
        get_u8-put _ (u8_of_bool (Encode.is_file e.kind)),
        kind_of_byte-byte e.kind,
        cast,
        get_u16-put _ (length e.path) fits,
        short,
        take-append (length e.path) e.path _ refl,
        text,
        c.path,
        get_u64-put _ e.size hs,
        c.kind,
        c.sum,
        c.within,
        next,
      )

  entries_inv :
      (es : List ClipboardManifestEntry) (out : Bytes)
      → Encode.encode_entries previous total (e ∷ es) ≡ ok out
      → (total' : ℕ) × (more : Bytes) × IsChecked previous total e total'
        × (Encode.encode_entries e.file_id total' es ≡ ok more)
        × (concat (Encode.entry_bytes e ∷ more ∷ []) ≡ out)
  unfolding Encode.encode_entries
  entries_inv es out h =
      let (path, h1) = >>-eq-ok (validate_path e.path) _ h in
      let (ids, h2) = >>-eq-ok (fail_if (e.file_id == 0 || leb e.file_id previous) _) _ h1 in
      let (total', sum, h3) = >>=-eq-ok (checked_add total e.size) _ h2 in
      let (within, h4) = >>-eq-ok (fail_if (ltb 67108864 total') _) _ h3 in
      let (kind, h5) =
        >>-eq-ok (fail_if (not (Encode.is_file e.kind) && not (e.size == 0)) _) _ h4 in
      let (more, w, q) = bound (Encode.encode_entries e.file_id total' es) _ h5 in
      (
        total',
        more,
        record {
          path = path;
          ids = fail_if-eq-ok _ _ ids;
          sum = sum;
          within = position_valid total' (fail_if-eq-ok _ _ within);
          kind = fail_if-eq-ok _ _ kind;
        },
        w,
        q,
      )

rejoin : (xs ys rest : Bytes) → concat (xs ∷ ys ∷ []) ++ rest ≡ xs ++ (ys ++ rest)
rejoin xs ys rest = simp (append_assoc, append-nil)

entries-round_trip :
    (rest : Bytes) (previous total : ℕ) (entries : List ClipboardManifestEntry) (out : Bytes)
    → IsEntries entries
    → Encode.encode_entries previous total entries ≡ ok out
    → Decode.decode_entries (length entries) previous total (out ++ rest) ≡ ok (entries, rest)
unfolding Encode.encode_entries Decode.decode_entries ◌>>=◌
entries-round_trip rest previous total [] out v h = rw (← ok-injective h)
entries-round_trip rest previous total (e ∷ es) out (text, hi, hs, v) h =
    let (total', more, c, w, q) = entries_inv previous total e es out h in
    subst (λ o. Decode.decode_entries (length (e ∷ es)) previous total o ≡ ok (e ∷ es, rest))
      (sym (rejoin (Encode.entry_bytes e) more rest) ∙ ap (λ o. o ++ rest) q)
      (entry-round_trip previous total e total' (length es) es (more ++ rest) rest (text, hi, hs) c
        (entries-round_trip rest e.file_id total' es more v w))

-- The count goes out on 32 bits and is at most 256.
count_tests :
    (entries : List ClipboardManifestEntry)
    → (is_empty entries || ltb 256 (length entries)) ≡ false
    → (length entries < 2 ^ 32) × ((length entries == 0 || ltb 256 (length entries)) ≡ false)
count_tests [] h = cc
count_tests (e ∷ es) h = (ground arith, ground arith)

manifest_inv :
    (buf : Bytes) (transfer_id : ℕ) (entries : List ClipboardManifestEntry) (out : Bytes)
    → Encode.encode_manifest buf transfer_id entries ≡ ok out
    → (body : Bytes) × ((is_empty entries || ltb 256 (length entries)) ≡ false)
      × (Encode.encode_entries 0 0 entries ≡ ok body)
      × (concat (put_u64 transfer_id ∷ put_u32 (length entries) ∷ body ∷ []) ≡ out)
unfolding Encode.encode_manifest
manifest_inv buf transfer_id entries out h =
    let (e, h1) = >>-eq-ok (fail_if (is_empty entries || ltb 256 (length entries)) _) _ h in
    let (body, w, h2) = >>=-eq-ok (Encode.encode_entries 0 0 entries) _ h1 in
    let (_, q) = checked _ _ h2 in (body, fail_if-eq-ok _ _ e, w, q)

pub manifest-round_trip :
    (buf : Bytes) (transfer_id : ℕ) (entries : List ClipboardManifestEntry) (out : Bytes)
    → IsU64 transfer_id
    → IsEntries entries
    → Encode.encode_manifest buf transfer_id entries ≡ ok out
    → Decode.decode_manifest out ≡ ok (ProtoEvent.clipboard_manifest transfer_id entries, [])
unfolding Decode.decode_manifest ◌>>=◌
manifest-round_trip buf transfer_id entries out ht v h =
    let (body, few, w, q) = manifest_inv buf transfer_id entries out h in
    let (fits, passes) = count_tests entries few in
    rw (
      ← q,
      get_u64-put _ transfer_id ht,
      get_u32-put _ (length entries) fits,
      passes,
      entries-round_trip [] 0 0 entries body v w,
    )
