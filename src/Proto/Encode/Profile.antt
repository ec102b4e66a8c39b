-- ===== src/Proto/Encode/Profile.antt =====
-- crates/syntra-proto/src/lib.rs: the arms of `encode` for peer profiles.
use syntra.Prelude.{ℕ, ◌+◌, ◌||◌, [], ◌∷◌, concat, length, is_empty, ltb, ◌==◌}
use syntra.Proto.Error.{Bytes, Result, ok, invalid_profile, too_large, fail_if, ◌>>◌}
use syntra.Proto.Limits.{max_profile_chunk_size, profile_chunk_header_size, safe_datagram_size}
use syntra.Proto.Wire.{put_u8, put_u32, put_u64}
use syntra.Proto.Validate.{invalid_profile_metadata}

unfoldable pub request : ℕ → Result Bytes
request request_id = do
  fail_if (request_id == 0) (invalid_profile "zero request id")
  ok (concat (put_u64 request_id ∷ []))

-- The name's length goes out as one byte: the check keeps it to 128.
unfoldable pub start : ℕ → ℕ → ℕ → ℕ → ℕ → Bytes → Result Bytes
start request_id width height total_len chunks name = do
  fail_if (request_id == 0 || invalid_profile_metadata (length name) width height total_len chunks)
      (invalid_profile "invalid profile metadata")
  ok (
      concat (
        put_u64 request_id
        ∷ put_u32 width
        ∷ put_u32 height
        ∷ put_u32 total_len
        ∷ put_u32 chunks
        ∷ put_u8 (length name)
        ∷ name
        ∷ []))

unfoldable pub chunk : ℕ → ℕ → Bytes → Result Bytes
chunk request_id index bytes = do
  fail_if (request_id == 0 || (is_empty bytes || ltb max_profile_chunk_size (length bytes)))
      (too_large (profile_chunk_header_size + length bytes) safe_datagram_size)
  ok (concat (put_u64 request_id ∷ put_u32 index ∷ bytes ∷ []))
