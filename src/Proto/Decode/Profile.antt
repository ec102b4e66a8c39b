-- ===== src/Proto/Decode/Profile.antt =====
-- crates/syntra-proto/src/lib.rs: the arms of `decode` for peer profiles.
use syntra.Prelude.{ℕ, ◌+◌, ◌||◌, length, is_empty, ltb, ◌==◌}
use syntra.Proto.Error.{invalid_profile, invalid_file_chunk, too_large, fail_if}
use syntra.Proto.Limits.{max_profile_chunk_size, profile_chunk_header_size, safe_datagram_size}
use syntra.Proto.Wire.{
  Decoder, pure, lift, ◌>>=◌, ◌>>◌, take, take_rest, get_u8, get_u32, get_u64, from_utf8,
}
use syntra.Proto.Event.{ProtoEvent}
use syntra.Proto.Validate.{invalid_profile_metadata}

unfoldable pub get_nonzero_request_id : Decoder ℕ
get_nonzero_request_id = do
  request_id ← get_u64
  lift (fail_if (request_id == 0) (invalid_file_chunk "zero request id"))
  pure request_id

unfoldable pub request : Decoder ProtoEvent
request = do request_id ← get_nonzero_request_id; pure (ProtoEvent.profile_request request_id)

unfoldable pub start : Decoder ProtoEvent
start = do
  request_id ← get_nonzero_request_id
  width ← get_u32
  height ← get_u32
  total_len ← get_u32
  chunks ← get_u32
  name_len ← get_u8
  lift (
      fail_if (invalid_profile_metadata name_len width height total_len chunks)
        (invalid_profile "invalid profile metadata"))
  bytes ← take name_len
  display_name ← lift (from_utf8 bytes (invalid_profile "profile name is not UTF-8"))
  pure (ProtoEvent.profile_start request_id width height total_len chunks display_name)

unfoldable pub chunk : Decoder ProtoEvent
chunk = do
  request_id ← get_nonzero_request_id
  index ← get_u32
  bytes ← take_rest
  lift (
      fail_if (is_empty bytes || ltb max_profile_chunk_size (length bytes))
        (too_large (profile_chunk_header_size + length bytes) safe_datagram_size))
  pure (ProtoEvent.profile_chunk request_id index bytes)
