-- ===== src/Proto/RoundTrip/Manual.antt =====
-- Round trips of the manual file transfer messages of crates/syntra-proto.
use syntra.Prelude.{
  ℕ, ◌<◌, ◌≤◌, ◌^◌, ◌≡◌, refl, Bool, true, false, ◌||◌, Option, [], ◌∷◌, arith, length, ltb, ◌==◌,
  append-nil,
}
use syntra.Proto.Error.{Bytes, ok}
use syntra.Proto.Wire.{◌>>=◌, take_rest, as_u16, from_utf8, put_optional_string}
use syntra.Proto.Wire.Utf8.{is_utf8}
use syntra.Proto.Wire.Scalars.{
  get_u8-put, get_u16-put, get_u32-put, get_u64-put, get_bool-put, take-append,
}
use syntra.Proto.Wire.Optional.{IsText, get_optional_string-put}
use syntra.Proto.Event.{ProtoEvent, ManualDecision, pending, accepted, declined}
use syntra.Proto.Names.{validate_manual_file_name, has_bad_shape}
use syntra.Proto.Encode.Manual as Encode
use syntra.Proto.Decode.Manual as Decode
use syntra.Proto.RoundTrip.Basic.{
  IsU32, IsU64, checked, bound, >>-eq-ok, fail_if-eq-ok, get_nonzero_transfer_id-put,
}

decision_of_byte-byte :
    (d : ManualDecision) → Decode.decision_of_byte (Encode.byte_of_decision d) ≡ ok d
unfolding Decode.decision_of_byte Encode.byte_of_decision
decision_of_byte-byte pending = refl
decision_of_byte-byte accepted = refl
decision_of_byte-byte declined = refl

-- A name that passes the check is neither empty nor too long.
name_length :
    (name : Bytes)
    → validate_manual_file_name name ≡ ok tt
    → (0 < length name) × (length name ≤ 1024)
unfolding validate_manual_file_name has_bad_shape
name_length [] v = cc
name_length (b ∷ name) v = ground arith

-- So its length survives the cast to 16 bits, and the test of the receiver.
length_tests :
    (n : ℕ) → 0 < n → n ≤ 1024 → (as_u16 n ≡ n) × (n < 2 ^ 16) × ((n == 0 || ltb 1024 n) ≡ false)
length_tests n p l = (omega arith, omega arith, ground arith)

pub offer-round_trip :
    (transfer_id : ℕ) (name : Bytes) (size : ℕ) (out : Bytes)
    → IsU64 transfer_id
    → is_utf8 name ≡ true
    → IsU64 size
    → Encode.offer transfer_id name size ≡ ok out
    → Decode.offer out ≡ ok (ProtoEvent.manual_file_offer transfer_id name size, [])
unfolding Encode.offer Decode.offer ◌>>=◌ from_utf8
offer-round_trip transfer_id name size out ht text hs h =
    let (id, h') = >>-eq-ok _ _ h in
    let (valid, q) = checked _ _ h' in
    let (pos, le) = name_length name valid in
    let (cast, fits, passes) = length_tests (length name) pos le in
    rw (
      ← q,
      cast,
      get_nonzero_transfer_id-put _ transfer_id ht (fail_if-eq-ok _ _ id),
      get_u16-put _ (length name) fits,
      passes,
      take-append (length name) name _ refl,
      text,
      valid,
      get_u64-put _ size hs,
    )

pub decision-round_trip :
    (transfer_id : ℕ) (d : ManualDecision) (out : Bytes)
    → IsU64 transfer_id
    → Encode.decision transfer_id d ≡ ok out
    → Decode.decision out ≡ ok (ProtoEvent.manual_file_decision transfer_id d, [])
unfolding Encode.decision Decode.decision ◌>>=◌
decision-round_trip transfer_id d out ht h =
    let (id, q) = checked _ _ h in
    rw (
      ← q,
      get_nonzero_transfer_id-put _ transfer_id ht (fail_if-eq-ok _ _ id),
      get_u8-put _ (Encode.byte_of_decision d),
      decision_of_byte-byte d,
    )

pub request-round_trip :
    (transfer_id offset count : ℕ) (out : Bytes)
    → IsU64 transfer_id
    → IsU64 offset
    → IsU32 count
    → Encode.request transfer_id offset count ≡ ok out
    → Decode.request out ≡ ok (ProtoEvent.manual_file_request transfer_id offset count, [])
unfolding Encode.request Decode.request ◌>>=◌
request-round_trip transfer_id offset count out h_transfer_id h_offset h_count h =
    let (e, q) = checked _ _ h in
    rw (
      ← q,
      get_u64-put _ transfer_id h_transfer_id,
      get_u64-put _ offset h_offset,
      get_u32-put _ count h_count,
      e,
    )

pub chunk-round_trip :
    (transfer_id offset : ℕ) (bytes : Bytes) (out : Bytes)
    → IsU64 transfer_id
    → IsU64 offset
    → Encode.chunk transfer_id offset bytes ≡ ok out
    → Decode.chunk out ≡ ok (ProtoEvent.manual_file_chunk transfer_id offset bytes, [])
unfolding Encode.chunk Decode.chunk ◌>>=◌ take_rest
chunk-round_trip transfer_id offset bytes out h_transfer_id h_offset h =
    let (e, q) = checked _ _ h in
    rw (← q, get_u64-put _ transfer_id h_transfer_id, get_u64-put _ offset h_offset, append-nil, e)

pub complete-round_trip :
    (transfer_id : ℕ) (sha256 : Bytes) (out : Bytes)
    → IsU64 transfer_id
    → length sha256 ≡ 32
    → Encode.complete transfer_id sha256 ≡ ok out
    → Decode.complete out ≡ ok (ProtoEvent.manual_file_complete transfer_id sha256, [])
unfolding Encode.complete Decode.complete ◌>>=◌
complete-round_trip transfer_id sha256 out h_transfer_id h_sha256 h =
    let (e, q) = checked _ _ h in
    let nz_transfer_id = fail_if-eq-ok _ _ e in
    rw (
      ← q,
      get_nonzero_transfer_id-put _ transfer_id h_transfer_id nz_transfer_id,
      take-append 32 sha256 _ h_sha256,
    )

pub result-round_trip :
    (transfer_id : ℕ) (success : Bool) (error : Option Bytes) (out : Bytes)
    → IsU64 transfer_id
    → IsText error
    → Encode.result transfer_id success error ≡ ok out
    → Decode.result out ≡ ok (ProtoEvent.manual_file_result transfer_id success error, [])
unfolding Encode.result Decode.result ◌>>=◌
result-round_trip transfer_id success error out ht text h =
    let (id, h') = >>-eq-ok _ _ h in
    let (short, h'') = >>-eq-ok (Encode.check_error error) _ h' in
    let (bytes, e, q) = bound (put_optional_string error) _ h'' in
    rw (
      ← q,
      get_nonzero_transfer_id-put _ transfer_id ht (fail_if-eq-ok _ _ id),
      get_bool-put _ success,
      get_optional_string-put [] error bytes text e,
      short,
    )

pub cancel-round_trip :
    (transfer_id : ℕ) (out : Bytes)
    → IsU64 transfer_id
    → Encode.cancel transfer_id ≡ ok out
    → Decode.cancel out ≡ ok (ProtoEvent.manual_file_cancel transfer_id, [])
unfolding Encode.cancel Decode.cancel ◌>>=◌
cancel-round_trip transfer_id out h_transfer_id h =
    let (e, q) = checked _ _ h in
    let nz_transfer_id = fail_if-eq-ok _ _ e in
    rw (← q, get_nonzero_transfer_id-put _ transfer_id h_transfer_id nz_transfer_id)
