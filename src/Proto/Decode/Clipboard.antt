-- ===== src/Proto/Decode/Clipboard.antt =====
-- crates/syntra-proto/src/lib.rs: the arms of `decode` for clipboard transfers.
use syntra.Prelude.{ℕ, Option, none, some, length, ◌==◌, if◌then◌else◌}
use syntra.Proto.Error.{Result, ok, err, invalid_file_chunk, invalid_cancel_reason, fail_if}
use syntra.Proto.Wire.{
  Decoder, pure, lift, ◌>>=◌, ◌>>◌, take, take_rest, get_u8, get_u32, get_u64, get_bool,
}
use syntra.Proto.Event.{ProtoEvent, ClipboardCancelReason, user, io_error, protocol}
use syntra.Proto.Validate.{
  validate_clipboard_start, validate_clipboard_image, validate_request, validate_file_chunk,
  validate_file_position, validate_progress,
}
use syntra.Proto.Decode.Profile.{get_nonzero_request_id}

unfoldable pub get_nonzero_file_id : Decoder ℕ
get_nonzero_file_id = do
  file_id ← get_u64
  lift (fail_if (file_id == 0) (invalid_file_chunk "zero file id"))
  pure file_id

unfoldable pub start : Decoder ProtoEvent
start = do
  transfer_id ← get_u64
  total_len ← get_u32
  chunks ← get_u32
  lift (validate_clipboard_start total_len chunks)
  pure (ProtoEvent.clipboard_start transfer_id total_len chunks)

unfoldable pub image_start : Decoder ProtoEvent
image_start = do
  transfer_id ← get_u64
  width ← get_u32
  height ← get_u32
  total_len ← get_u32
  chunks ← get_u32
  lift (validate_clipboard_image width height total_len chunks)
  pure (ProtoEvent.clipboard_image_start transfer_id width height total_len chunks)

unfoldable pub chunk : Decoder ProtoEvent
chunk = do
  transfer_id ← get_u64
  index ← get_u32
  bytes ← take_rest
  pure (ProtoEvent.clipboard_chunk transfer_id index bytes)

unfoldable pub capabilities : Decoder ProtoEvent
capabilities = do
  text ← get_bool
  image ← get_bool
  files ← get_bool
  pure (ProtoEvent.clipboard_capabilities (record { text = text; image = image; files = files }))

unfoldable pub file_request : Decoder ProtoEvent
file_request = do
  transfer_id ← get_u64
  file_id ← get_nonzero_file_id
  request_id ← get_nonzero_request_id
  offset ← get_u64
  count ← get_u64
  lift (validate_request offset count)
  pure (ProtoEvent.clipboard_file_request transfer_id file_id request_id offset count)

unfoldable pub file_chunk : Decoder ProtoEvent
file_chunk = do
  transfer_id ← get_u64
  file_id ← get_nonzero_file_id
  request_id ← get_nonzero_request_id
  offset ← get_u64
  bytes ← take_rest
  lift (validate_file_chunk offset (length bytes))
  pure (ProtoEvent.clipboard_file_chunk transfer_id file_id request_id offset bytes)

unfoldable pub file_complete : Decoder ProtoEvent
file_complete = do
  transfer_id ← get_u64
  file_id ← get_nonzero_file_id
  request_id ← get_nonzero_request_id
  size ← get_u64
  lift (validate_file_position size)
  digest ← take 32
  pure (ProtoEvent.clipboard_file_complete transfer_id file_id request_id size digest)

-- `0 => None, file_id => Some(file_id)`
unfoldable pub some_nonzero : ℕ → Option ℕ
some_nonzero n = if n == 0 then none else some n

unfoldable pub reason_of_byte : ℕ → Result ClipboardCancelReason
reason_of_byte b =
    if b == 0
    then ok user
    else if b == 1
    then ok io_error
    else if b == 2
    then ok protocol
    else err (invalid_cancel_reason b)

unfoldable pub transfer_cancel : Decoder ProtoEvent
transfer_cancel = do
  transfer_id ← get_u64
  id ← get_u64
  b ← get_u8
  reason ← lift (reason_of_byte b)
  pure (ProtoEvent.clipboard_transfer_cancel transfer_id (some_nonzero id) reason)

unfoldable pub transfer_progress : Decoder ProtoEvent
transfer_progress = do
  transfer_id ← get_u64
  file_id ← get_nonzero_file_id
  completed ← get_u64
  total ← get_u64
  lift (validate_progress completed total)
  pure (ProtoEvent.clipboard_transfer_progress transfer_id file_id completed total)
