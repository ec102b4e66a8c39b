-- ===== src/Proto/Encode/Manual.antt =====
-- crates/syntra-proto/src/lib.rs: the arms of `encode` for manual file transfers.
use syntra.Prelude.{
  ℕ, Bool, ◌||◌, ◌&&◌, not, Option, none, some, [], ◌∷◌, concat, length, is_empty, ltb, leb, ◌==◌,
}
use syntra.Proto.Error.{Bytes, Result, ok, too_large, invalid_file_chunk, fail_if, ◌>>=◌, ◌>>◌}
use syntra.Proto.Limits.{max_manual_file_chunk_size, max_manual_file_error_size}
use syntra.Proto.Wire.{put_u8, put_u16, put_u32, put_u64, put_optional_string, u8_of_bool, as_u16}
use syntra.Proto.Event.{ManualDecision, pending, accepted, declined}
use syntra.Proto.Names.{validate_manual_file_name}

unfoldable pub offer : ℕ → Bytes → ℕ → Result Bytes
offer transfer_id file_name size = do
  fail_if (transfer_id == 0) (invalid_file_chunk "zero transfer id")
  validate_manual_file_name file_name
  ok (
      concat
        (put_u64 transfer_id ∷ put_u16 (as_u16 (length file_name)) ∷ file_name ∷ put_u64 size ∷ []))

unfoldable pub byte_of_decision : ManualDecision → ℕ
byte_of_decision pending = 0
byte_of_decision accepted = 1
byte_of_decision declined = 2

unfoldable pub decision : ℕ → ManualDecision → Result Bytes
decision transfer_id d = do
  fail_if (transfer_id == 0) (invalid_file_chunk "zero transfer id")
  ok (concat (put_u64 transfer_id ∷ put_u8 (byte_of_decision d) ∷ []))

-- `transfer_id == 0 || !(1..=MAX_MANUAL_FILE_CHUNK_SIZE as u32).contains(&length)`
abbrev pub is_bad_request : ℕ → ℕ → Bool
is_bad_request transfer_id count =
    transfer_id == 0 || not (leb 1 count && leb count max_manual_file_chunk_size)

unfoldable pub request : ℕ → ℕ → ℕ → Result Bytes
request transfer_id offset count = do
  fail_if (is_bad_request transfer_id count) (invalid_file_chunk "invalid manual request")
  ok (concat (put_u64 transfer_id ∷ put_u64 offset ∷ put_u32 count ∷ []))

abbrev pub is_bad_chunk : ℕ → Bytes → Bool
is_bad_chunk transfer_id bytes =
    transfer_id == 0 || (is_empty bytes || ltb max_manual_file_chunk_size (length bytes))

unfoldable pub chunk : ℕ → ℕ → Bytes → Result Bytes
chunk transfer_id offset bytes = do
  fail_if (is_bad_chunk transfer_id bytes) (invalid_file_chunk "invalid manual chunk")
  ok (concat (put_u64 transfer_id ∷ put_u64 offset ∷ bytes ∷ []))

unfoldable pub complete : ℕ → Bytes → Result Bytes
complete transfer_id sha256 = do
  fail_if (transfer_id == 0) (invalid_file_chunk "zero transfer id")
  ok (concat (put_u64 transfer_id ∷ sha256 ∷ []))

abbrev pub error_length : Option Bytes → ℕ
error_length none = 0
error_length (some e) = length e

-- The check on an error text that sender and receiver share.
unfoldable pub check_error : Option Bytes → Result (Unit {0})
check_error error =
    fail_if (ltb max_manual_file_error_size (error_length error))
      (too_large (error_length error) max_manual_file_error_size)

unfoldable pub result : ℕ → Bool → Option Bytes → Result Bytes
result transfer_id success error = do
  fail_if (transfer_id == 0) (invalid_file_chunk "zero transfer id")
  check_error error
  text ← put_optional_string error
  ok (concat (put_u64 transfer_id ∷ put_u8 (u8_of_bool success) ∷ text ∷ []))

unfoldable pub cancel : ℕ → Result Bytes
cancel transfer_id = do
  fail_if (transfer_id == 0) (invalid_file_chunk "zero transfer id")
  ok (concat (put_u64 transfer_id ∷ []))
