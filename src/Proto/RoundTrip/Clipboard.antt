-- ===== src/Proto/RoundTrip/Clipboard.antt =====
-- Round trips of the clipboard messages of crates/syntra-proto.
use syntra.Prelude.{
  ℕ, zero, suc, ◌<◌, ◌^◌, ◌≡◌, refl, false, Option, none, some, [], arith, length, ltb, ◌==◌,
  append-nil,
}
use syntra.Proto.Error.{Bytes, ok}
use syntra.Proto.Wire.{◌>>=◌, take_rest}
use syntra.Proto.Wire.Scalars.{get_u8-put, get_u32-put, get_u64-put, get_bool-put, take-append}
use syntra.Proto.Wire.Optional.{FitsU64}
use syntra.Proto.Event.{
  ProtoEvent, ClipboardCapabilities, ClipboardCancelReason, user, io_error, protocol,
}
use syntra.Proto.Validate.{validate_ids, validate_progress, validate_file_position}
use syntra.Proto.Encode.Clipboard as Encode
use syntra.Proto.Decode.Clipboard as Decode
use syntra.Proto.RoundTrip.Basic.{
  IsU32, IsU64, checked, >>-eq-ok, fail_if-eq-ok, get_nonzero_request_id-put,
  get_nonzero_file_id-put,
}

pub start-round_trip :
    (transfer_id total_len chunks : ℕ) (out : Bytes)
    → IsU64 transfer_id
    → IsU32 total_len
    → IsU32 chunks
    → Encode.start transfer_id total_len chunks ≡ ok out
    → Decode.start out ≡ ok (ProtoEvent.clipboard_start transfer_id total_len chunks, [])
unfolding Encode.start Decode.start ◌>>=◌
start-round_trip transfer_id total_len chunks out h_transfer_id h_total_len h_chunks h =
    let (valid, q) = checked _ _ h in
    rw (
      ← q,
      get_u64-put _ transfer_id h_transfer_id,
      get_u32-put _ total_len h_total_len,
      get_u32-put _ chunks h_chunks,
      valid,
    )

pub image_start-round_trip :
    (transfer_id width height total_len chunks : ℕ) (out : Bytes)
    → IsU64 transfer_id
    → IsU32 width
    → IsU32 height
    → IsU32 total_len
    → IsU32 chunks
    → Encode.image_start transfer_id width height total_len chunks ≡ ok out
    → Decode.image_start out
      ≡ ok (ProtoEvent.clipboard_image_start transfer_id width height total_len chunks, [])
unfolding Encode.image_start Decode.image_start ◌>>=◌
image_start-round_trip transfer_id width height total_len chunks out h_transfer_id h_width h_height
      h_total_len h_chunks h =
    let (valid, q) = checked _ _ h in
    rw (
      ← q,
      get_u64-put _ transfer_id h_transfer_id,
      get_u32-put _ width h_width,
      get_u32-put _ height h_height,
      get_u32-put _ total_len h_total_len,
      get_u32-put _ chunks h_chunks,
      valid,
    )

pub chunk-round_trip :
    (transfer_id index : ℕ) (bytes : Bytes) (out : Bytes)
    → IsU64 transfer_id
    → IsU32 index
    → Encode.chunk transfer_id index bytes ≡ ok out
    → Decode.chunk out ≡ ok (ProtoEvent.clipboard_chunk transfer_id index bytes, [])
unfolding Encode.chunk Decode.chunk ◌>>=◌ take_rest
chunk-round_trip transfer_id index bytes out h_transfer_id h_index h =
    let (e, q) = checked _ _ h in
    rw (← q, get_u64-put _ transfer_id h_transfer_id, get_u32-put _ index h_index, append-nil)

pub capabilities-round_trip :
    (c : ClipboardCapabilities)
    → Decode.capabilities (Encode.capabilities c) ≡ ok (ProtoEvent.clipboard_capabilities c, [])
unfolding Encode.capabilities Decode.capabilities ◌>>=◌
capabilities-round_trip c =
    rw (get_bool-put _ c.text, get_bool-put _ c.image, get_bool-put _ c.files)

-- The ids of a file message that passed `validate_ids`.
ids_nonzero :
    (file_id request_id : ℕ)
    → validate_ids file_id request_id ≡ ok tt
    → ((file_id == 0) ≡ false) × ((request_id == 0) ≡ false)
unfolding validate_ids
ids_nonzero b c h = ground arith

pub file_request-round_trip :
    (transfer_id file_id request_id offset count : ℕ) (out : Bytes)
    → IsU64 transfer_id
    → IsU64 file_id
    → IsU64 request_id
    → IsU64 offset
    → IsU64 count
    → Encode.file_request transfer_id file_id request_id offset count ≡ ok out
    → Decode.file_request out
      ≡ ok (ProtoEvent.clipboard_file_request transfer_id file_id request_id offset count, [])
unfolding Encode.file_request Decode.file_request ◌>>=◌
file_request-round_trip transfer_id file_id request_id offset count out h_transfer_id h_file_id
      h_request_id h_offset h_count h =
    let (ids, h') = >>-eq-ok _ _ h in
    let (valid, q) = checked _ _ h' in
    let (nz_file_id, nz_request_id) = ids_nonzero file_id request_id ids in
    rw (
      ← q,
      get_u64-put _ transfer_id h_transfer_id,
      get_nonzero_file_id-put _ file_id h_file_id nz_file_id,
      get_nonzero_request_id-put _ request_id h_request_id nz_request_id,
      get_u64-put _ offset h_offset,
      get_u64-put _ count h_count,
      valid,
    )

pub file_chunk-round_trip :
    (transfer_id file_id request_id offset : ℕ) (bytes : Bytes) (out : Bytes)
    → IsU64 transfer_id
    → IsU64 file_id
    → IsU64 request_id
    → IsU64 offset
    → Encode.file_chunk transfer_id file_id request_id offset bytes ≡ ok out
    → Decode.file_chunk out
      ≡ ok (ProtoEvent.clipboard_file_chunk transfer_id file_id request_id offset bytes, [])
unfolding Encode.file_chunk Decode.file_chunk ◌>>=◌ take_rest
file_chunk-round_trip transfer_id file_id request_id offset bytes out h_transfer_id h_file_id
      h_request_id h_offset h =
    let (ids, h') = >>-eq-ok _ _ h in
    let (valid, q) = checked _ _ h' in
    let (nz_file_id, nz_request_id) = ids_nonzero file_id request_id ids in
    rw (
      ← q,
      get_u64-put _ transfer_id h_transfer_id,
      get_nonzero_file_id-put _ file_id h_file_id nz_file_id,
      get_nonzero_request_id-put _ request_id h_request_id nz_request_id,
      get_u64-put _ offset h_offset,
      append-nil,
      valid,
    )

pub file_complete-round_trip :
    (transfer_id file_id request_id size : ℕ) (digest : Bytes) (out : Bytes)
    → IsU64 transfer_id
    → IsU64 file_id
    → IsU64 request_id
    → IsU64 size
    → length digest ≡ 32
    → Encode.file_complete transfer_id file_id request_id size digest ≡ ok out
    → Decode.file_complete out
      ≡ ok (ProtoEvent.clipboard_file_complete transfer_id file_id request_id size digest, [])
unfolding Encode.file_complete Decode.file_complete ◌>>=◌
file_complete-round_trip transfer_id file_id request_id size digest out h_transfer_id h_file_id
      h_request_id h_size h_digest h =
    let (ids, h') = >>-eq-ok _ _ h in
    let (valid, q) = checked _ _ h' in
    let (nz_file_id, nz_request_id) = ids_nonzero file_id request_id ids in
    rw (
      ← q,
      get_u64-put _ transfer_id h_transfer_id,
      get_nonzero_file_id-put _ file_id h_file_id nz_file_id,
      get_nonzero_request_id-put _ request_id h_request_id nz_request_id,
      get_u64-put _ size h_size,
      valid,
      take-append 32 digest _ h_digest,
    )

reason_of_byte-byte :
    (r : ClipboardCancelReason) → Decode.reason_of_byte (Encode.byte_of_reason r) ≡ ok r
unfolding Decode.reason_of_byte Encode.byte_of_reason
reason_of_byte-byte user = refl
reason_of_byte-byte io_error = refl
reason_of_byte-byte protocol = refl

-- What the receiver makes of an optional file id: zero stands for none.
abbrev pub sent_file_id : Option ℕ → Option ℕ
sent_file_id none = none
sent_file_id (some zero) = none
sent_file_id (some (suc n)) = some (suc n)

some_nonzero-or_zero : (o : Option ℕ) → Decode.some_nonzero (Encode.or_zero o) ≡ sent_file_id o
unfolding Decode.some_nonzero
some_nonzero-or_zero none = refl
some_nonzero-or_zero (some zero) = refl
some_nonzero-or_zero (some (suc n)) = ground arith

or_zero-lt : (o : Option ℕ) → FitsU64 o → Encode.or_zero o < 2 ^ 64
or_zero-lt none h = omega arith
or_zero-lt (some n) h = h

pub transfer_cancel-round_trip :
    (transfer_id : ℕ) (file_id : Option ℕ) (reason : ClipboardCancelReason)
    → IsU64 transfer_id
    → FitsU64 file_id
    → Decode.transfer_cancel (Encode.transfer_cancel transfer_id file_id reason)
      ≡ ok (ProtoEvent.clipboard_transfer_cancel transfer_id (sent_file_id file_id) reason, [])
unfolding Encode.transfer_cancel Decode.transfer_cancel ◌>>=◌
transfer_cancel-round_trip transfer_id file_id reason ht hf = rw (
  get_u64-put _ transfer_id ht,
  get_u64-put _ (Encode.or_zero file_id) (or_zero-lt file_id hf),
  get_u8-put _ (Encode.byte_of_reason reason),
  reason_of_byte-byte reason,
  some_nonzero-or_zero file_id,
)

-- The sender tests only the order; the receiver also wants a file id, and a total within bounds.
progress_valid :
    (completed total : ℕ)
    → ltb total completed ≡ false
    → validate_file_position total ≡ ok tt
    → validate_progress completed total ≡ ok tt
unfolding validate_progress
progress_valid c t h v = rw (v, h)

pub transfer_progress-round_trip :
    (transfer_id file_id completed total : ℕ) (out : Bytes)
    → IsU64 transfer_id
    → IsU64 file_id
    → IsU64 completed
    → IsU64 total
    → (file_id == 0) ≡ false
    → validate_file_position total ≡ ok tt
    → Encode.transfer_progress transfer_id file_id completed total ≡ ok out
    → Decode.transfer_progress out
      ≡ ok (ProtoEvent.clipboard_transfer_progress transfer_id file_id completed total, [])
unfolding Encode.transfer_progress Decode.transfer_progress ◌>>=◌
transfer_progress-round_trip transfer_id file_id completed total out h_transfer_id h_file_id
      h_completed h_total nz_file_id bounded h =
    let (e, q) = checked _ _ h in
    rw (
      ← q,
      get_u64-put _ transfer_id h_transfer_id,
      get_nonzero_file_id-put _ file_id h_file_id nz_file_id,
      get_u64-put _ completed h_completed,
      get_u64-put _ total h_total,
      progress_valid completed total (fail_if-eq-ok _ _ e) bounded,
    )
