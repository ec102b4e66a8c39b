-- ===== src/Proto/Decode/Manifest.antt =====
-- crates/syntra-proto/src/lib.rs: `decode_manifest`.
use syntra.Prelude.{
  ℕ, zero, suc, not, ◌||◌, ◌&&◌, List, [], ◌∷◌, ltb, leb, ◌==◌, if◌then◌else◌, codes,
}
use syntra.Proto.Error.{
  Result, ok, err, too_large, invalid_manifest, invalid_boolean, invalid_path, fail_if,
}
use syntra.Proto.Limits.{max_clipboard_path_size, max_clipboard_manifest_entries, checked_add}
use syntra.Proto.Wire.{
  Decoder, pure, lift, ◌>>=◌, ◌>>◌, take, get_u8, get_u16, get_u32, get_u64, from_utf8,
}
use syntra.Proto.Event.{ProtoEvent, ClipboardManifestEntry, ClipboardEntryKind, file, directory}
use syntra.Proto.Validate.{validate_file_position}
use syntra.Proto.Names.{validate_path}
use syntra.Proto.Encode.Manifest.{is_file}

unfoldable pub kind_of_byte : ℕ → Result ClipboardEntryKind
kind_of_byte b =
    if b == 0 then ok directory else if b == 1 then ok file else err (invalid_boolean b)

-- The loop over the entries, with its variables `previous` and `total`.
unfoldable pub decode_entries : ℕ → ℕ → ℕ → Decoder (List ClipboardManifestEntry)
decode_entries zero previous total = pure []
decode_entries (suc n) previous total = do
  file_id ← get_u64
  lift (fail_if (file_id == 0 || leb file_id previous) (invalid_manifest "file ids must increase"))
  b ← get_u8
  kind ← lift (kind_of_byte b)
  path_len ← get_u16
  lift (fail_if (ltb max_clipboard_path_size path_len) (too_large path_len max_clipboard_path_size))
  bytes ← take path_len
  path ← lift (from_utf8 bytes (invalid_path (codes "non-UTF-8 path")))
  lift (validate_path path)
  size ← get_u64
  lift (fail_if (not (is_file kind) && not (size == 0)) (invalid_manifest "directory size"))
  total' ← lift (checked_add total size)
  lift (validate_file_position total')
  rest ← decode_entries n file_id total'
  pure (record { file_id = file_id; path = path; kind = kind; size = size } ∷ rest)

unfoldable pub decode_manifest : Decoder ProtoEvent
decode_manifest = do
  transfer_id ← get_u64
  count ← get_u32
  lift (
      fail_if (count == 0 || ltb max_clipboard_manifest_entries count)
        (invalid_manifest "entry count"))
  entries ← decode_entries count 0 0
  pure (ProtoEvent.clipboard_manifest transfer_id entries)
