-- ===== src/Proto/Validate.antt =====
-- crates/syntra-proto/src/lib.rs: the checks on message fields that sender and receiver share.
pub mod Counts
use syntra.Prelude.{ℕ, Bool, true, Option, none, some, ◌||◌, ◌&&◌, not, ltb, ◌==◌, if◌then◌else◌}
use syntra.Proto.Error.{
  Result, ok, err, too_large, invalid_chunk_count, invalid_file_chunk, invalid_progress, fail_if,
  ◌>>=◌, ◌>>◌,
}
use syntra.Proto.Limits.{
  max_clipboard_size, max_clipboard_chunk_size, max_clipboard_file_chunk_size,
  max_history_record_size, max_history_chunk_size, max_profile_name_size, max_profile_size,
  usize_max, checked_add, checked_mul, div_ceil,
}

unfoldable pub validate_history_start : ℕ → ℕ → Result (Unit {0})
unfolding div_ceil
validate_history_start total_len chunks =
    fail_if (total_len == 0 || ltb max_history_record_size total_len)
      (too_large total_len max_history_record_size)
    >> (let expected = div_ceil total_len max_history_chunk_size in
        fail_if (not (chunks == expected)) (invalid_chunk_count expected chunks))

unfoldable pub validate_clipboard_start : ℕ → ℕ → Result (Unit {0})
unfolding div_ceil
validate_clipboard_start total_len chunks =
    fail_if (ltb max_clipboard_size total_len) (too_large total_len max_clipboard_size)
    >> (let expected = if total_len == 0 then 0 else div_ceil total_len max_clipboard_chunk_size in
        fail_if (not (chunks == expected)) (invalid_chunk_count expected chunks))

unfoldable pub validate_file_position : ℕ → Result (Unit {0})
validate_file_position value =
    fail_if (ltb max_clipboard_size value) (too_large value max_clipboard_size)

unfoldable pub validate_file_chunk : ℕ → ℕ → Result (Unit {0})
unfolding validate_file_position checked_add
validate_file_chunk offset data_len = do
  fail_if (data_len == 0) (invalid_file_chunk "empty chunk")
  fail_if (ltb max_clipboard_file_chunk_size data_len)
      (too_large data_len max_clipboard_file_chunk_size)
  validate_file_position offset
  end ← checked_add offset data_len
  validate_file_position end

unfoldable pub validate_progress : ℕ → ℕ → Result (Unit {0})
unfolding validate_file_position
validate_progress completed total = do
  validate_file_position total
  fail_if (ltb total completed) (invalid_progress completed total)

-- The bytes of an image of four bytes a pixel, where that is a `usize`.
image_bytes : ℕ → ℕ → Option ℕ
unfolding checked_mul
image_bytes width height = elim (checked_mul width height) [
  | none ↦ none
  | some pixels ↦ checked_mul pixels 4
]

-- `.ok_or(TooLarge)?`
expected_image_len : Option ℕ → Result ℕ
expected_image_len none = err (too_large usize_max max_clipboard_size)
expected_image_len (some n) = ok n

unfoldable pub validate_clipboard_image : ℕ → ℕ → ℕ → ℕ → Result (Unit {0})
unfolding image_bytes expected_image_len validate_clipboard_start
validate_clipboard_image width height total_len chunks = do
  expected_len ← expected_image_len (image_bytes width height)
  fail_if (not (expected_len == total_len)) (too_large total_len expected_len)
  validate_clipboard_start total_len chunks

-- `pixels != Some(total_len)`
unfoldable pub differs_from : Option ℕ → ℕ → Bool
differs_from none n = true
differs_from (some m) n = not (m == n)

-- The condition on the fields of `ProfileStart` that encoder and decoder test alike.
unfoldable pub invalid_profile_metadata : ℕ → ℕ → ℕ → ℕ → ℕ → Bool
unfolding image_bytes differs_from
invalid_profile_metadata name_len width height total_len chunks =
    let pixels = image_bytes width height in
    let empty = (width == 0 && height == 0) && (total_len == 0 && chunks == 0) in
    ltb max_profile_name_size name_len
    || (ltb 128 width
        || (ltb 128 height
            || (ltb max_profile_size total_len
                || ((not empty && (chunks == 0 || differs_from pixels total_len))
                    || (empty && differs_from pixels 0)))))

unfoldable pub validate_ids : ℕ → ℕ → Result (Unit {0})
validate_ids file_id request_id = do
  fail_if (file_id == 0) (invalid_file_chunk "zero file id")
  fail_if (request_id == 0) (invalid_file_chunk "zero request id")

unfoldable pub validate_request : ℕ → ℕ → Result (Unit {0})
unfolding validate_file_position checked_add
validate_request offset length = do
  validate_file_position offset
  fail_if (length == 0 || ltb max_clipboard_file_chunk_size length)
      (invalid_file_chunk "invalid request length")
  end ← checked_add offset length
  validate_file_position end
