-- ===== src/Proto/RoundTrip/History.antt =====
-- Round trips of the history messages of crates/syntra-proto.
use syntra.Prelude.{
  ℕ, ◌<◌, ◌≤◌, ◌^◌, ◌≡◌, refl, true, false, ◌||◌, Option, [], ◌∷◌, ◌++◌, arith, length, concat, ltb,
  ◌==◌, append-nil, append_assoc, is_empty,
}
use syntra.Proto.Error.{Bytes, ok, ok-injective}
use syntra.Proto.Wire.{◌>>=◌, take_rest, put_u16, put_u64, as_u16, from_utf8}
use syntra.Proto.Wire.Utf8.{is_utf8}
use syntra.Proto.Wire.Scalars.{get_u16-put, get_u32-put, get_u64-put, take-append}
use syntra.Proto.Wire.Optional.{FitsU64, IsText, get_optional_u64-put, get_optional_string-put}
use syntra.Proto.Event.{ProtoEvent, Boundary}
use syntra.Proto.Encode.History as Encode
use syntra.Proto.Decode.History as Decode
use syntra.Proto.RoundTrip.Basic.{IsU32, IsU64, checked, bound, >>-eq-ok, >>=-eq-ok, fail_if-eq-ok}

pub sync_request-round_trip :
    (request_id offset : ℕ)
    → IsU64 request_id
    → IsU64 offset
    → Decode.sync_request (Encode.sync_request request_id offset)
      ≡ ok (ProtoEvent.history_sync_request request_id offset, [])
unfolding Encode.sync_request Decode.sync_request ◌>>=◌
sync_request-round_trip request_id offset h_request_id h_offset =
    rw (get_u64-put _ request_id h_request_id, get_u64-put _ offset h_offset)

pub record_start-round_trip :
    (request_id record_id total_len chunks : ℕ) (out : Bytes)
    → IsU64 request_id
    → IsU64 record_id
    → IsU32 total_len
    → IsU32 chunks
    → Encode.record_start request_id record_id total_len chunks ≡ ok out
    → Decode.record_start out
      ≡ ok (ProtoEvent.history_record_start request_id record_id total_len chunks, [])
unfolding Encode.record_start Decode.record_start ◌>>=◌
record_start-round_trip request_id record_id total_len chunks out h_request_id h_record_id
      h_total_len h_chunks h =
    let (valid, q) = checked _ _ h in
    rw (
      ← q,
      get_u64-put _ request_id h_request_id,
      get_u64-put _ record_id h_record_id,
      get_u32-put _ total_len h_total_len,
      get_u32-put _ chunks h_chunks,
      valid,
    )

pub record_chunk-round_trip :
    (request_id record_id index : ℕ) (bytes : Bytes) (out : Bytes)
    → IsU64 request_id
    → IsU64 record_id
    → IsU32 index
    → Encode.record_chunk request_id record_id index bytes ≡ ok out
    → Decode.record_chunk out
      ≡ ok (ProtoEvent.history_record_chunk request_id record_id index bytes, [])
unfolding Encode.record_chunk Decode.record_chunk ◌>>=◌ take_rest
record_chunk-round_trip request_id record_id index bytes out h_request_id h_record_id h_index h =
    let (e, q) = checked _ _ h in
    rw (
      ← q,
      get_u64-put _ request_id h_request_id,
      get_u64-put _ record_id h_record_id,
      get_u32-put _ index h_index,
      append-nil,
      e,
    )

pub sync_page_end-round_trip :
    (request_id : ℕ) (next_offset : Option ℕ)
    → IsU64 request_id
    → FitsU64 next_offset
    → Decode.sync_page_end (Encode.sync_page_end request_id next_offset)
      ≡ ok (ProtoEvent.history_sync_page_end request_id next_offset, [])
unfolding Encode.sync_page_end Decode.sync_page_end ◌>>=◌
sync_page_end-round_trip request_id next_offset hr hn =
    rw (get_u64-put _ request_id hr, get_optional_u64-put [] next_offset hn)

pub boundary_request-round_trip :
    (operation_id : Bytes)
    → length operation_id ≡ 16
    → Decode.boundary_request (concat (operation_id ∷ []))
      ≡ ok (ProtoEvent.history_clear_boundary_request operation_id, [])
unfolding Decode.boundary_request ◌>>=◌
boundary_request-round_trip operation_id h = rw (take-append 16 operation_id [] h)

-- Device ids are text, and sequence numbers fit in 64 bits.
abbrev pub IsBoundary : Boundary → Type 0
IsBoundary [] = Unit
IsBoundary ((device_id, sequence) ∷ rest) =
    (is_utf8 device_id ≡ true) × IsU64 sequence × IsBoundary rest

id_length :
    (device_id : Bytes)
    → (is_empty device_id || ltb 128 (length device_id)) ≡ false
    → (0 < length device_id) × (length device_id ≤ 128)
id_length [] h = cc
id_length (b ∷ bs) h = ground arith

length_tests :
    (n : ℕ) → 0 < n → n ≤ 128 → (as_u16 n ≡ n) × (n < 2 ^ 16) × ((n == 0 || ltb 128 n) ≡ false)
length_tests n p l = (omega arith, omega arith, ground arith)

pairs-round_trip :
    (rest : Bytes) (boundary : Boundary) (out : Bytes)
    → IsBoundary boundary
    → Encode.encode_pairs boundary ≡ ok out
    → Decode.decode_pairs (length boundary) (out ++ rest) ≡ ok (boundary, rest)
unfolding Encode.encode_pairs Decode.decode_pairs ◌>>=◌ from_utf8
pairs-round_trip rest [] out v h = rw (← ok-injective h)
pairs-round_trip rest ((device_id, sequence) ∷ more) out (text, hs, v) h =
    let (e, h') = >>-eq-ok _ _ h in
    let (bytes, w, q) = bound _ _ h' in
    let (pos, le) = id_length device_id (fail_if-eq-ok _ _ e) in
    let (cast, fits, passes) = length_tests (length device_id) pos le in
    rw (
      ← q,
      cast,
      append_assoc (put_u16 (length device_id)) _ rest,
      get_u16-put _ (length device_id) fits,
      passes,
      append_assoc device_id _ rest,
      take-append (length device_id) device_id _ refl,
      text,
      append_assoc (put_u64 sequence) _ rest,
      get_u64-put _ sequence hs,
      append_assoc bytes [] rest,
      pairs-round_trip rest more bytes v w,
    )

-- A boundary that passes the check has a length that survives the cast.
count_tests : (n : ℕ) → ltb 100 n ≡ false → (as_u16 n ≡ n) × (n < 2 ^ 16)
count_tests n h = (ground arith, ground arith)

history_boundary-round_trip :
    (buf : Bytes) (boundary : Boundary) (out : Bytes)
    → IsBoundary boundary
    → Encode.encode_history_boundary buf boundary ≡ ok out
    → Decode.decode_history_boundary out ≡ ok (boundary, [])
unfolding Encode.encode_history_boundary Decode.decode_history_boundary ◌>>=◌
history_boundary-round_trip buf boundary out v h =
    let (e, h') = >>-eq-ok _ _ h in
    let (body, w, h'') = >>=-eq-ok _ _ h' in
    let (_, q) = checked _ _ h'' in
    let few = fail_if-eq-ok _ _ e in
    let (cast, fits) = count_tests (length boundary) few in
    rw (← q, cast, get_u16-put _ (length boundary) fits, few, pairs-round_trip [] boundary body v w)

pub clear_boundary-round_trip :
    (event : Bytes → Boundary → ProtoEvent) (buf operation_id : Bytes) (boundary : Boundary)
    (out : Bytes)
    → length operation_id ≡ 16
    → IsBoundary boundary
    → Encode.clear_boundary buf operation_id boundary ≡ ok out
    → Decode.clear_boundary event out ≡ ok (event operation_id boundary, [])
unfolding Encode.clear_boundary Decode.clear_boundary ◌>>=◌
clear_boundary-round_trip event buf operation_id boundary out ho v h =
    let (body, w, q) = bound _ _ h in
    rw (
      ← q,
      take-append 16 operation_id _ ho,
      append-nil,
      history_boundary-round_trip (buf ++ operation_id) boundary body v w,
    )

pub clear_ack-round_trip :
    (operation_id : Bytes) (affected : ℕ) (error : Option Bytes) (out : Bytes)
    → length operation_id ≡ 16
    → IsU64 affected
    → IsText error
    → Encode.clear_ack operation_id affected error ≡ ok out
    → Decode.clear_ack out ≡ ok (ProtoEvent.history_clear_ack operation_id affected error, [])
unfolding Encode.clear_ack Decode.clear_ack ◌>>=◌
clear_ack-round_trip operation_id affected error out ho ha text h =
    let (bytes, e, q) = bound _ _ h in
    rw (
      ← q,
      take-append 16 operation_id _ ho,
      get_u64-put _ affected ha,
      get_optional_string-put [] error bytes text e,
    )
