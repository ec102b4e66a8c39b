-- ===== src/Proto/Encode/History.antt =====
-- crates/syntra-proto/src/lib.rs: the arms of `encode` for history synchronisation, and
-- `encode_history_boundary`.
use syntra.Prelude.{ℕ, ◌||◌, Option, [], ◌∷◌, ◌++◌, concat, length, is_empty, ltb}
use syntra.Proto.Error.{Bytes, Result, ok, too_large, invalid_history, fail_if, ◌>>=◌, ◌>>◌}
use syntra.Proto.Limits.{
  max_datagram_size, max_history_chunk_size, max_history_boundary_entries,
  max_history_device_id_size,
}
use syntra.Proto.Wire.{put_u16, put_u32, put_u64, put_optional_u64, put_optional_string, as_u16}
use syntra.Proto.Event.{Boundary}
use syntra.Proto.Validate.{validate_history_start}

unfoldable pub sync_request : ℕ → ℕ → Bytes
sync_request request_id offset = concat (put_u64 request_id ∷ put_u64 offset ∷ [])

unfoldable pub record_start : ℕ → ℕ → ℕ → ℕ → Result Bytes
record_start request_id record_id total_len chunks = do
  validate_history_start total_len chunks
  ok (concat (put_u64 request_id ∷ put_u64 record_id ∷ put_u32 total_len ∷ put_u32 chunks ∷ []))

unfoldable pub record_chunk : ℕ → ℕ → ℕ → Bytes → Result Bytes
record_chunk request_id record_id index bytes = do
  fail_if (is_empty bytes || ltb max_history_chunk_size (length bytes))
      (too_large (length bytes) max_history_chunk_size)
  ok (concat (put_u64 request_id ∷ put_u64 record_id ∷ put_u32 index ∷ bytes ∷ []))

unfoldable pub sync_page_end : ℕ → Option ℕ → Bytes
sync_page_end request_id next_offset =
    concat (put_u64 request_id ∷ put_optional_u64 next_offset ∷ [])

unfoldable pub encode_pairs : Boundary → Result Bytes
encode_pairs [] = ok []
encode_pairs ((device_id, sequence) ∷ rest) = do
  fail_if (is_empty device_id || ltb max_history_device_id_size (length device_id))
      (invalid_history "invalid boundary device id")
  more ← encode_pairs rest
  ok (concat (put_u16 (as_u16 (length device_id)) ∷ device_id ∷ put_u64 sequence ∷ more ∷ []))

unfoldable pub encode_history_boundary : Bytes → Boundary → Result Bytes
encode_history_boundary buf boundary = do
  fail_if (ltb max_history_boundary_entries (length boundary))
      (invalid_history "too many boundary entries")
  body ← encode_pairs boundary
  let out = concat (put_u16 (as_u16 (length boundary)) ∷ body ∷ [])
  let written = length (buf ++ out)
  fail_if (ltb max_datagram_size written) (too_large written max_datagram_size)
  ok out

-- `HistoryClearBoundary` and `HistoryClearApply`
unfoldable pub clear_boundary : Bytes → Bytes → Boundary → Result Bytes
clear_boundary buf operation_id boundary = do
  body ← encode_history_boundary (buf ++ operation_id) boundary
  ok (concat (operation_id ∷ body ∷ []))

unfoldable pub clear_ack : Bytes → ℕ → Option Bytes → Result Bytes
clear_ack operation_id affected error = do
  text ← put_optional_string error
  ok (concat (operation_id ∷ put_u64 affected ∷ text ∷ []))
