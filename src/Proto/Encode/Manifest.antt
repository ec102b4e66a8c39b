-- ===== src/Proto/Encode/Manifest.antt =====
-- crates/syntra-proto/src/lib.rs: `encode_manifest`.
use syntra.Prelude.{
  ℕ, Bool, true, false, not, ◌||◌, ◌&&◌, List, [], ◌∷◌, ◌++◌, concat, length, is_empty, ltb, leb,
  ◌==◌,
}
use syntra.Proto.Error.{Bytes, Result, ok, too_large, invalid_manifest, fail_if, ◌>>=◌, ◌>>◌}
use syntra.Proto.Limits.{
  max_datagram_size, max_clipboard_size, max_clipboard_manifest_entries, usize_max, checked_add,
}
use syntra.Proto.Wire.{put_u8, put_u16, put_u32, put_u64, u8_of_bool, as_u16}
use syntra.Proto.Event.{ClipboardManifestEntry, ClipboardEntryKind, file, directory}
use syntra.Proto.Names.{validate_path}

abbrev pub is_file : ClipboardEntryKind → Bool
is_file file = true
is_file directory = false

unfoldable pub entry_bytes : ClipboardManifestEntry → Bytes
entry_bytes e = concat (
    put_u64 e.file_id
    ∷ put_u8 (u8_of_bool (is_file e.kind))
    ∷ put_u16 (as_u16 (length e.path))
    ∷ e.path
    ∷ put_u64 e.size
    ∷ [])

-- The loop over the entries, with its variables `previous` and `total`.
unfoldable pub encode_entries : ℕ → ℕ → List ClipboardManifestEntry → Result Bytes
encode_entries previous total [] = ok []
encode_entries previous total (e ∷ es) = do
  validate_path e.path
  fail_if (e.file_id == 0 || leb e.file_id previous) (invalid_manifest "file ids must increase")
  total' ← checked_add total e.size
  fail_if (ltb max_clipboard_size total') (too_large usize_max max_clipboard_size)
  fail_if (not (is_file e.kind) && not (e.size == 0)) (invalid_manifest "directory size")
  rest ← encode_entries e.file_id total' es
  ok (concat (entry_bytes e ∷ rest ∷ []))

unfoldable pub encode_manifest : Bytes → ℕ → List ClipboardManifestEntry → Result Bytes
encode_manifest buf transfer_id entries = do
  fail_if (is_empty entries || ltb max_clipboard_manifest_entries (length entries))
      (invalid_manifest "entry count")
  body ← encode_entries 0 0 entries
  let out = concat (put_u64 transfer_id ∷ put_u32 (length entries) ∷ body ∷ [])
  let written = length (buf ++ out)
  fail_if (ltb max_datagram_size written) (too_large written max_datagram_size)
  ok out
