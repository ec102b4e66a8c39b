-- ===== src/Proto/Limits.antt =====
-- crates/syntra-proto/src/lib.rs: the limits of the protocol, and the arithmetic of `usize` and `u64`
-- (both of 64 bits) that the checks use.
use syntra.Prelude.{ℕ, ◌+◌, ◌-◌, ◌*◌, ◌/◌, ◌%◌, ◌^◌, Option, none, some, ltb, ◌==◌, if◌then◌else◌}
use syntra.Proto.Error.{Result, ok, err, length_overflow}

abbrev pub max_datagram_size : ℕ
max_datagram_size = 16 * 1024

abbrev pub max_clipboard_size : ℕ
max_clipboard_size = 64 * 1024 * 1024

abbrev pub clipboard_chunk_header_size : ℕ
clipboard_chunk_header_size = 1 + 8 + 4

abbrev pub max_clipboard_chunk_size : ℕ
max_clipboard_chunk_size = max_datagram_size - clipboard_chunk_header_size

abbrev pub max_clipboard_path_size : ℕ
max_clipboard_path_size = 1024

abbrev pub max_clipboard_manifest_entries : ℕ
max_clipboard_manifest_entries = 256

abbrev clipboard_file_chunk_header_size : ℕ
clipboard_file_chunk_header_size = 1 + 8 + 8 + 8 + 8

abbrev pub safe_datagram_size : ℕ
safe_datagram_size = 1200

abbrev pub max_clipboard_file_chunk_size : ℕ
max_clipboard_file_chunk_size = safe_datagram_size - clipboard_file_chunk_header_size

abbrev pub max_manual_file_chunk_size : ℕ
max_manual_file_chunk_size = safe_datagram_size - (1 + 8 + 8)

abbrev pub max_manual_file_name_size : ℕ
max_manual_file_name_size = 1024

abbrev pub max_manual_file_error_size : ℕ
max_manual_file_error_size = 512

abbrev pub max_history_record_size : ℕ
max_history_record_size = 48 * 1024 * 1024

abbrev history_chunk_header_size : ℕ
history_chunk_header_size = 1 + 8 + 8 + 4

abbrev pub max_history_chunk_size : ℕ
max_history_chunk_size = safe_datagram_size - history_chunk_header_size

abbrev pub max_history_boundary_entries : ℕ
max_history_boundary_entries = 100

abbrev pub max_history_device_id_size : ℕ
max_history_device_id_size = 128

abbrev pub max_profile_name_size : ℕ
max_profile_name_size = 128

abbrev pub max_profile_size : ℕ
max_profile_size = 128 * 128 * 4

abbrev pub profile_chunk_header_size : ℕ
profile_chunk_header_size = 1 + 8 + 4

abbrev pub max_profile_chunk_size : ℕ
max_profile_chunk_size = safe_datagram_size - profile_chunk_header_size

abbrev pub max_handoff_target : ℕ
max_handoff_target = 128

-- `usize::MAX`
abbrev pub usize_max : ℕ
usize_max = 2 ^ 64 - 1

-- `a.checked_add(b).ok_or(LengthOverflow)` on `u64`.
unfoldable pub checked_add : ℕ → ℕ → Result ℕ
checked_add a b = if ltb (a + b) (2 ^ 64) then ok (a + b) else err length_overflow

-- `a.checked_mul(b)` on `usize`.
unfoldable pub checked_mul : ℕ → ℕ → Option ℕ
checked_mul a b = if ltb (a * b) (2 ^ 64) then some (a * b) else none

unfoldable pub div_ceil : ℕ → ℕ → ℕ
div_ceil a b = if a % b == 0 then a / b else a / b + 1
