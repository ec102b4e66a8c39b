-- ===== src/Proto/Validator.antt =====
-- crates/syntra-proto/src/lib.rs: `ClipboardFileChunkValidator`, the receiver's check of the answers to
-- one range request. A method that fails leaves the validator as it was, since it writes only after
-- its last check; so it returns the new validator or the error.
pub mod Sessions
use syntra.Prelude.{
  ℕ, ◌+◌, Bool, true, false, not, ◌&&◌, ◌||◌, Option, none, some, List, [], ◌∷◌, ltb, ◌==◌,
  if◌then◌else◌,
}
use syntra.Proto.Error.{Result, ok, err, invalid_file_chunk, fail_if, ◌>>=◌, ◌>>◌}
use syntra.Proto.Limits.{checked_add}
use syntra.Proto.Validate.{
  validate_request, validate_file_chunk, validate_file_position, differs_from,
}

pub record ClipboardFileChunkValidator : Type 0 where
  pub transfer_id : ℕ
  pub file_id : ℕ
  pub request_id : ℕ
  pub offset : ℕ
  pub length : ℕ
  pub chunk_received : Bool
  pub chunk_end : Option ℕ
  pub eof : Bool
  pub complete : Bool

unfoldable pub new : ℕ → ℕ → ℕ → ℕ → ℕ → Result ClipboardFileChunkValidator
new transfer_id file_id request_id offset length = do
  fail_if (file_id == 0) (invalid_file_chunk "zero file id")
  validate_request offset length
  fail_if (request_id == 0) (invalid_file_chunk "zero request id")
  ok (record {
    transfer_id = transfer_id;
    file_id = file_id;
    request_id = request_id;
    offset = offset;
    length = length;
    chunk_received = false;
    chunk_end = none;
    eof = false;
    complete = false;
  })

-- `(transfer_id, file_id, request_id) != (self.transfer_id, self.file_id, self.request_id)`
unfoldable pub is_other : ClipboardFileChunkValidator → ℕ → ℕ → ℕ → Bool
is_other v transfer_id file_id request_id =
    not (transfer_id == v.transfer_id && (file_id == v.file_id && request_id == v.request_id))

unfoldable pub validate_chunk :
    ClipboardFileChunkValidator → ℕ → ℕ → ℕ → ℕ → ℕ → Result ClipboardFileChunkValidator
validate_chunk v transfer_id file_id request_id offset data_len = do
  fail_if (v.complete || v.chunk_received) (invalid_file_chunk "duplicate chunk")
  fail_if (is_other v transfer_id file_id request_id)
      (invalid_file_chunk "unexpected transfer identity")
  fail_if (not (offset == v.offset)) (invalid_file_chunk "unexpected offset")
  validate_file_chunk offset data_len
  fail_if (ltb v.length data_len) (invalid_file_chunk "chunk exceeds requested length")
  chunk_end ← checked_add offset data_len
  ok (record v { chunk_received = true; chunk_end = some chunk_end; eof = ltb data_len v.length })

-- The check of the announced size against what was received.
unfoldable pub check_size : ClipboardFileChunkValidator → ℕ → Result (Unit {0})
check_size v size =
    if v.chunk_received
    then fail_if (not v.eof || differs_from v.chunk_end size)
        (invalid_file_chunk "inconsistent completion size")
    else fail_if (not (size == v.offset)) (invalid_file_chunk "completion before end of file")

unfoldable pub validate_complete :
    ClipboardFileChunkValidator → ℕ → ℕ → ℕ → ℕ → Result ClipboardFileChunkValidator
validate_complete v transfer_id file_id request_id size = do
  fail_if v.complete (invalid_file_chunk "duplicate completion")
  fail_if (is_other v transfer_id file_id request_id)
      (invalid_file_chunk "unexpected transfer identity")
  check_size v size
  validate_file_position size
  ok (record v { complete = true })
