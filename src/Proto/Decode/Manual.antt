-- ===== src/Proto/Decode/Manual.antt =====
-- crates/syntra-proto/src/lib.rs: the arms of `decode` for manual file transfers.
use syntra.Prelude.{ℕ, ◌||◌, ltb, ◌==◌, if◌then◌else◌}
use syntra.Proto.Error.{Result, ok, err, invalid_file_chunk, fail_if}
use syntra.Proto.Limits.{max_manual_file_name_size}
use syntra.Proto.Wire.{
  Decoder, pure, lift, ◌>>=◌, ◌>>◌, take, take_rest, get_u8, get_u16, get_u32, get_u64, get_bool,
  get_optional_string, from_utf8,
}
use syntra.Proto.Event.{ProtoEvent, ManualDecision, pending, accepted, declined}
use syntra.Proto.Names.{validate_manual_file_name}
use syntra.Proto.Encode.Manual.{is_bad_request, is_bad_chunk, check_error}

-- The id, and the check that all but `ManualFileRequest` and `ManualFileChunk` make at once.
unfoldable pub get_nonzero_transfer_id : Decoder ℕ
get_nonzero_transfer_id = do
  transfer_id ← get_u64
  lift (fail_if (transfer_id == 0) (invalid_file_chunk "zero transfer id"))
  pure transfer_id

unfoldable pub offer : Decoder ProtoEvent
offer = do
  transfer_id ← get_nonzero_transfer_id
  name_len ← get_u16
  lift (
      fail_if (name_len == 0 || ltb max_manual_file_name_size name_len)
        (invalid_file_chunk "invalid manual file name"))
  bytes ← take name_len
  name ← lift (from_utf8 bytes (invalid_file_chunk "invalid manual file name"))
  lift (validate_manual_file_name name)
  size ← get_u64
  pure (ProtoEvent.manual_file_offer transfer_id name size)

unfoldable pub decision_of_byte : ℕ → Result ManualDecision
decision_of_byte b =
    if b == 0
    then ok pending
    else if b == 1
    then ok accepted
    else if b == 2
    then ok declined
    else err (invalid_file_chunk "invalid manual decision")

unfoldable pub decision : Decoder ProtoEvent
decision = do
  transfer_id ← get_nonzero_transfer_id
  b ← get_u8
  d ← lift (decision_of_byte b)
  pure (ProtoEvent.manual_file_decision transfer_id d)

unfoldable pub request : Decoder ProtoEvent
request = do
  transfer_id ← get_u64
  offset ← get_u64
  count ← get_u32
  lift (fail_if (is_bad_request transfer_id count) (invalid_file_chunk "invalid manual request"))
  pure (ProtoEvent.manual_file_request transfer_id offset count)

unfoldable pub chunk : Decoder ProtoEvent
chunk = do
  transfer_id ← get_u64
  offset ← get_u64
  bytes ← take_rest
  lift (fail_if (is_bad_chunk transfer_id bytes) (invalid_file_chunk "invalid manual chunk"))
  pure (ProtoEvent.manual_file_chunk transfer_id offset bytes)

unfoldable pub complete : Decoder ProtoEvent
complete = do
  transfer_id ← get_nonzero_transfer_id
  sha256 ← take 32
  pure (ProtoEvent.manual_file_complete transfer_id sha256)

unfoldable pub result : Decoder ProtoEvent
result = do
  transfer_id ← get_nonzero_transfer_id
  success ← get_bool
  error ← get_optional_string
  lift (check_error error)
  pure (ProtoEvent.manual_file_result transfer_id success error)

unfoldable pub cancel : Decoder ProtoEvent
cancel = do transfer_id ← get_nonzero_transfer_id; pure (ProtoEvent.manual_file_cancel transfer_id)
