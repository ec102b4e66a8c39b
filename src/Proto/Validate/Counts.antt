-- ===== src/Proto/Validate/Counts.antt =====
-- What a valid number of chunks means: crates/syntra-proto/src/lib.rs, `validate_clipboard_start`
-- and `validate_history_start`.
use syntra.Prelude.{ℕ, ◌+◌, ◌*◌, ◌≤◌, ◌<◌, ◌≡◌, ◌↔◌, arith}
use syntra.Proto.Error.{ok}
use syntra.Proto.Validate.{validate_clipboard_start, validate_history_start}

-- So many chunks of the size are needed for the total, and no fewer.
abbrev pub Covers : ℕ → ℕ → ℕ → Type 0
Covers size total chunks = (total ≤ chunks * size) × (chunks * size < total + size)

-- A clipboard transfer is announced exactly with a total of at most 64 MiB and as many chunks of
-- 16371 bytes as it takes to cover it.
pub validate_clipboard_start_iff :
    (total chunks : ℕ)
    → (validate_clipboard_start total chunks ≡ ok tt)
      ↔ ((total ≤ 67108864) × Covers 16371 total chunks)
unfolding validate_clipboard_start
validate_clipboard_start_iff total chunks = ground arith

-- A history record is announced exactly with a total from 1 byte to 48 MiB and as many chunks of
-- 1179 bytes as it takes to cover it.
pub validate_history_start_iff :
    (total chunks : ℕ)
    → (validate_history_start total chunks ≡ ok tt)
      ↔ ((0 < total) × (total ≤ 50331648) × Covers 1179 total chunks)
unfolding validate_history_start
validate_history_start_iff total chunks = ground arith
