-- ===== src/Proto/Decode/History.antt =====
-- crates/syntra-proto/src/lib.rs: the arms of `decode` for history synchronisation, and
-- `decode_history_boundary`.
use syntra.Prelude.{ℕ, zero, suc, ◌||◌, [], ◌∷◌, length, is_empty, ltb, ◌==◌}
use syntra.Proto.Error.{Bytes, too_large, invalid_history, fail_if}
use syntra.Proto.Limits.{
  max_history_chunk_size, max_history_boundary_entries, max_history_device_id_size,
}
use syntra.Proto.Wire.{
  Decoder, pure, lift, ◌>>=◌, ◌>>◌, take, take_rest, get_u16, get_u32, get_u64, get_optional_u64,
  get_optional_string, from_utf8,
}
use syntra.Proto.Event.{ProtoEvent, Boundary}
use syntra.Proto.Validate.{validate_history_start}

unfoldable pub sync_request : Decoder ProtoEvent
sync_request = do
  request_id ← get_u64
  offset ← get_u64
  pure (ProtoEvent.history_sync_request request_id offset)

unfoldable pub record_start : Decoder ProtoEvent
record_start = do
  request_id ← get_u64
  record_id ← get_u64
  total_len ← get_u32
  chunks ← get_u32
  lift (validate_history_start total_len chunks)
  pure (ProtoEvent.history_record_start request_id record_id total_len chunks)

unfoldable pub record_chunk : Decoder ProtoEvent
record_chunk = do
  request_id ← get_u64
  record_id ← get_u64
  index ← get_u32
  bytes ← take_rest
  lift (
      fail_if (is_empty bytes || ltb max_history_chunk_size (length bytes))
        (too_large (length bytes) max_history_chunk_size))
  pure (ProtoEvent.history_record_chunk request_id record_id index bytes)

unfoldable pub sync_page_end : Decoder ProtoEvent
sync_page_end = do
  request_id ← get_u64
  next_offset ← get_optional_u64
  pure (ProtoEvent.history_sync_page_end request_id next_offset)

unfoldable pub boundary_request : Decoder ProtoEvent
boundary_request = do
  operation_id ← take 16
  pure (ProtoEvent.history_clear_boundary_request operation_id)

unfoldable pub decode_pairs : ℕ → Decoder Boundary
decode_pairs zero = pure []
decode_pairs (suc n) = do
  len ← get_u16
  lift (
      fail_if (len == 0 || ltb max_history_device_id_size len)
        (invalid_history "invalid boundary device id"))
  bytes ← take len
  device_id ← lift (from_utf8 bytes (invalid_history "non-UTF-8 boundary device id"))
  sequence ← get_u64
  rest ← decode_pairs n
  pure ((device_id, sequence) ∷ rest)

unfoldable pub decode_history_boundary : Decoder Boundary
decode_history_boundary = do
  count ← get_u16
  lift (
      fail_if (ltb max_history_boundary_entries count)
        (invalid_history "too many boundary entries"))
  decode_pairs count

-- `HistoryClearBoundary` and `HistoryClearApply`
unfoldable pub clear_boundary : (Bytes → Boundary → ProtoEvent) → Decoder ProtoEvent
clear_boundary event = do
  operation_id ← take 16
  boundary ← decode_history_boundary
  pure (event operation_id boundary)

unfoldable pub clear_ack : Decoder ProtoEvent
clear_ack = do
  operation_id ← take 16
  affected ← get_u64
  error ← get_optional_string
  pure (ProtoEvent.history_clear_ack operation_id affected error)
