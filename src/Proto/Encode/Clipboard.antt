-- ===== src/Proto/Encode/Clipboard.antt =====
-- crates/syntra-proto/src/lib.rs: the arms of `encode` for clipboard transfers.
use syntra.Prelude.{ℕ, ◌+◌, Option, none, some, [], ◌∷◌, concat, length, ltb}
use syntra.Proto.Error.{Bytes, Result, ok, too_large, invalid_progress, fail_if, ◌>>◌}
use syntra.Proto.Limits.{max_datagram_size, clipboard_chunk_header_size}
use syntra.Proto.Wire.{put_u8, put_u32, put_u64, u8_of_bool}
use syntra.Proto.Event.{ClipboardCapabilities, ClipboardCancelReason, user, io_error, protocol}
use syntra.Proto.Validate.{
  validate_clipboard_start, validate_clipboard_image, validate_ids, validate_request,
  validate_file_chunk, validate_file_position,
}

unfoldable pub start : ℕ → ℕ → ℕ → Result Bytes
start transfer_id total_len chunks = do
  validate_clipboard_start total_len chunks
  ok (concat (put_u64 transfer_id ∷ put_u32 total_len ∷ put_u32 chunks ∷ []))

unfoldable pub image_start : ℕ → ℕ → ℕ → ℕ → ℕ → Result Bytes
image_start transfer_id width height total_len chunks = do
  validate_clipboard_image width height total_len chunks
  ok (
      concat (
        put_u64 transfer_id
        ∷ put_u32 width
        ∷ put_u32 height
        ∷ put_u32 total_len
        ∷ put_u32 chunks
        ∷ []))

unfoldable pub chunk : ℕ → ℕ → Bytes → Result Bytes
chunk transfer_id index bytes = do
  let actual = clipboard_chunk_header_size + length bytes
  fail_if (ltb max_datagram_size actual) (too_large actual max_datagram_size)
  ok (concat (put_u64 transfer_id ∷ put_u32 index ∷ bytes ∷ []))

unfoldable pub capabilities : ClipboardCapabilities → Bytes
capabilities c =
    concat
      (put_u8 (u8_of_bool c.text) ∷ put_u8 (u8_of_bool c.image) ∷ put_u8 (u8_of_bool c.files) ∷ [])

unfoldable pub file_request : ℕ → ℕ → ℕ → ℕ → ℕ → Result Bytes
file_request transfer_id file_id request_id offset count = do
  validate_ids file_id request_id
  validate_request offset count
  ok (
      concat (
        put_u64 transfer_id
        ∷ put_u64 file_id
        ∷ put_u64 request_id
        ∷ put_u64 offset
        ∷ put_u64 count
        ∷ []))

unfoldable pub file_chunk : ℕ → ℕ → ℕ → ℕ → Bytes → Result Bytes
file_chunk transfer_id file_id request_id offset bytes = do
  validate_ids file_id request_id
  validate_file_chunk offset (length bytes)
  ok (
      concat
        (put_u64 transfer_id ∷ put_u64 file_id ∷ put_u64 request_id ∷ put_u64 offset ∷ bytes ∷ []))

unfoldable pub file_complete : ℕ → ℕ → ℕ → ℕ → Bytes → Result Bytes
file_complete transfer_id file_id request_id size digest = do
  validate_ids file_id request_id
  validate_file_position size
  ok (
      concat
        (put_u64 transfer_id ∷ put_u64 file_id ∷ put_u64 request_id ∷ put_u64 size ∷ digest ∷ []))

-- `file_id.unwrap_or(0)`
abbrev pub or_zero : Option ℕ → ℕ
or_zero none = 0
or_zero (some n) = n

unfoldable pub byte_of_reason : ClipboardCancelReason → ℕ
byte_of_reason user = 0
byte_of_reason io_error = 1
byte_of_reason protocol = 2

unfoldable pub transfer_cancel : ℕ → Option ℕ → ClipboardCancelReason → Bytes
transfer_cancel transfer_id file_id reason =
    concat (put_u64 transfer_id ∷ put_u64 (or_zero file_id) ∷ put_u8 (byte_of_reason reason) ∷ [])

unfoldable pub transfer_progress : ℕ → ℕ → ℕ → ℕ → Result Bytes
transfer_progress transfer_id file_id completed total = do
  fail_if (ltb total completed) (invalid_progress completed total)
  ok (concat (put_u64 transfer_id ∷ put_u64 file_id ∷ put_u64 completed ∷ put_u64 total ∷ []))
