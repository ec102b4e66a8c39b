-- ===== src/Proto/Sizes.antt =====
-- How long the datagrams of crates/syntra-proto are: MAX_DATAGRAM_SIZE for all, and SAFE_DATAGRAM_SIZE
-- for the pieces of a longer transfer.
use syntra.Prelude.{
  ℕ, suc, ◌+◌, ◌≤◌, ◌≡◌, ◌||◌, sym, subst, Bool, false, [], ◌∷◌, ◌++◌, ◌==◌, arith, length,
  is_empty, ltb, length-append,
}
use syntra.Proto.Error.{Bytes, ok, fail_if}
use syntra.Proto.Wire.{put_u32, put_u64}
use syntra.Proto.Wire.Scalars.{length-to_be_bytes}
use syntra.Proto.Event.{ProtoEvent}
use syntra.Proto.EventType.{event_type, byte_of_event_type}
use syntra.Proto.Validate.{validate_file_chunk}
use syntra.Proto.Encode.{payload, encode}
use syntra.Proto.Encode
use syntra.Proto.RoundTrip.Basic.{>>-eq-ok, >>=-eq-ok, checked, fail_if-eq-ok}

-- The longest datagram of an event: 1200 bytes for the pieces of a history record, a file or a
-- profile, and 16384 for the others.
abbrev pub size_limit : ProtoEvent → ℕ
size_limit (ProtoEvent.history_record_chunk r i x b) = 1200
size_limit (ProtoEvent.clipboard_file_chunk t f r o b) = 1200
size_limit (ProtoEvent.manual_file_chunk t o b) = 1200
size_limit (ProtoEvent.profile_chunk r i b) = 1200
size_limit _ = 16384

length-put_u64 : (n : ℕ) → length (put_u64 n) ≡ 8
unfolding put_u64
length-put_u64 n = length-to_be_bytes 8 n

length-put_u32 : (n : ℕ) → length (put_u32 n) ≡ 4
unfolding put_u32
length-put_u32 n = length-to_be_bytes 4 n

-- A header of pieces with known lengths, and the data after it.
length-cons :
    (piece rest : Bytes) (n m : ℕ)
    → length piece ≡ n
    → length rest ≤ m
    → length (piece ++ rest) ≤ n + m
length-cons piece rest n m e h = omega (arith, length-append piece rest)

length-last : (bytes : Bytes) (n : ℕ) → length bytes ≤ n → length (bytes ++ []) ≤ n
length-last bytes n h = omega (arith, length-append bytes [])

below : (n limit : ℕ) (t : Bool) → (t || ltb limit n) ≡ false → n ≤ limit
below n limit t h = ground arith

record_chunk-size :
    (r i x : ℕ) (b out : Bytes) → Encode.History.record_chunk r i x b ≡ ok out → length out ≤ 1199
unfolding Encode.History.record_chunk
record_chunk-size r i x b out h =
    let (t, q) = checked _ _ h in
    subst (λ o. length o ≤ 1199) q
      (length-cons _ _ 8 1191 (length-put_u64 r) (
        length-cons _ _ 8 1183 (length-put_u64 i) (
          length-cons _ _ 4 1179 (length-put_u32 x)
            (length-last b 1179 (below (length b) 1179 (is_empty b) (fail_if-eq-ok _ _ t))))))

profile_chunk-size :
    (r i : ℕ) (b out : Bytes) → Encode.Profile.chunk r i b ≡ ok out → length out ≤ 1199
unfolding Encode.Profile.chunk
profile_chunk-size r i b out h =
    let (t, q) = checked _ _ h in
    subst (λ o. length o ≤ 1199) q
      (length-cons _ _ 8 1191 (length-put_u64 r) (
        length-cons _ _ 4 1187 (length-put_u32 i)
          (length-last b 1187 (within (r == 0) (is_empty b) (fail_if-eq-ok _ _ t)))))
  where
    within : (s t : Bool) → (s || (t || ltb 1187 (length b))) ≡ false → length b ≤ 1187
    within s t e = ground arith

manual_chunk-size :
    (t o : ℕ) (b out : Bytes) → Encode.Manual.chunk t o b ≡ ok out → length out ≤ 1199
unfolding Encode.Manual.chunk
manual_chunk-size t o b out h =
    let (c, q) = checked _ _ h in
    subst (λ x. length x ≤ 1199) q
      (length-cons _ _ 8 1191 (length-put_u64 t) (
        length-cons _ _ 8 1183 (length-put_u64 o)
          (length-last b 1183 (within (t == 0) (is_empty b) (fail_if-eq-ok _ _ c)))))
  where
    within : (s u : Bool) → (s || (u || ltb 1183 (length b))) ≡ false → length b ≤ 1183
    within s u e = ground arith

validate_file_chunk-le :
    (offset count : ℕ) → validate_file_chunk offset count ≡ ok tt → count ≤ 1167
unfolding validate_file_chunk
validate_file_chunk-le offset count h = ground arith

file_chunk-size :
    (t f r o : ℕ) (b out : Bytes)
    → Encode.Clipboard.file_chunk t f r o b ≡ ok out
    → length out ≤ 1199
unfolding Encode.Clipboard.file_chunk
file_chunk-size t f r o b out h =
    let (ids, h') = >>-eq-ok _ _ h in
    let (c, q) = checked _ _ h' in
    subst (λ x. length x ≤ 1199) q
      (length-cons _ _ 8 1191 (length-put_u64 t) (
        length-cons _ _ 8 1183 (length-put_u64 f) (
          length-cons _ _ 8 1175 (length-put_u64 r) (
            length-cons _ _ 8 1167 (length-put_u64 o)
              (length-last b 1167 (validate_file_chunk-le o (length b) c))))))

payload-size :
    (event : ProtoEvent) (buf body : Bytes)
    → payload buf event ≡ ok body
    → suc (length body) ≤ 16384
    → suc (length body) ≤ size_limit event
unfolding payload
payload-size (ProtoEvent.history_record_chunk r i x b) buf body h l =
    omega (arith, record_chunk-size r i x b body h)
payload-size (ProtoEvent.clipboard_file_chunk t f r o b) buf body h l =
    omega (arith, file_chunk-size t f r o b body h)
payload-size (ProtoEvent.manual_file_chunk t o b) buf body h l =
    omega (arith, manual_chunk-size t o b body h)
payload-size (ProtoEvent.profile_chunk r i b) buf body h l =
    omega (arith, profile_chunk-size r i b body h)
payload-size _ buf body h l = l

-- Whatever `encode` returns begins with the id of the event, and is at most 16384 bytes long: at most
-- 1200 for a piece of a history record, of a file or of a profile.
pub encode-size :
    (event : ProtoEvent) (bytes : Bytes)
    → encode event ≡ ok bytes
    → (length bytes ≤ size_limit event)
      × (body : Bytes) × (bytes ≡ byte_of_event_type (event_type event) ∷ body)
unfolding encode
encode-size event bytes h =
    let buf = byte_of_event_type (event_type event) ∷ [] in
    let (body, e, h') = >>=-eq-ok (payload buf event) _ h in
    let (fits, q) = checked (fail_if (ltb 16384 (length (buf ++ body))) _) _ h' in
    (
      subst (λ b. length b ≤ size_limit event) q
          (payload-size event buf body e
            (below (length (buf ++ body)) 16384 false (fail_if-eq-ok _ _ fits))),
      body,
      sym q,
    )
