-- ===== src/Proto/Accepted/Manifest.antt =====
-- What `decode_manifest` lets through (crates/syntra-proto/src/lib.rs).
use syntra.Prelude.{
  ℕ, zero, suc, ◌+◌, ◌≤◌, ◌<◌, ◌≡◌, refl, ap, ◌∙◌, false, not, ◌||◌, ◌&&◌, arith, length, leb, ◌==◌,
}
use syntra.Proto.Error.{ok}
use syntra.Proto.Limits.{checked_add}
use syntra.Proto.Event.{ClipboardEntryKind, file, directory}
use syntra.Proto.Validate.{validate_file_position}
use syntra.Proto.Names.Safe.{validate_path_iff}
use syntra.Proto.Encode.Manifest.{is_file}
use syntra.Proto.Accepted.Event.{IsAccepted, IsManifest, FitsKind, total_size}
use syntra.Proto.Accepted.Rules.{
  Ensures, Ensures-pure, Ensures-bind, Ensures-bind_with, Ensures-lift, Ensures-check, passed,
}
use syntra.Proto.Decode.Manifest as Decode

-- The tests of one entry, read as bounds.
entry_bounds :
    (previous total total' file_id size : ℕ) (kind : ClipboardEntryKind)
    → (file_id == 0 || leb file_id previous) ≡ false
    → (not (is_file kind) && not (size == 0)) ≡ false
    → checked_add total size ≡ ok total'
    → validate_file_position total' ≡ ok tt
    → (previous < file_id) × FitsKind kind size × (total' ≡ total + size) × (total' ≤ 67108864)
unfolding checked_add validate_file_position
entry_bounds previous total total' file_id size file ids k sum max = ground arith
entry_bounds previous total total' file_id size directory ids k sum max = ground arith

entries-IsManifest :
    (n previous total : ℕ)
    → total ≤ 67108864
    → Ensures
        (λ es. (length es ≡ n) × IsManifest previous es × (total + total_size es ≤ 67108864))
        (Decode.decode_entries n previous total)
unfolding Decode.decode_entries
entries-IsManifest zero previous total h = Ensures-pure _ (refl, tt, omega arith)
entries-IsManifest (suc n) previous total h = Ensures-bind _ _ λ id. Ensures-check _ _ _ λ ids.
    Ensures-bind _ _ λ b. Ensures-lift _ _ λ kind _. Ensures-bind _ _ λ l. Ensures-check _ _ _ λ _.
      Ensures-bind _ _ λ bytes. Ensures-lift _ _ λ path _. Ensures-lift _ _ λ u v.
        Ensures-bind _ _ λ size. Ensures-check _ _ _ λ k. Ensures-lift _ _ λ total' sum.
          Ensures-lift _ _ λ w max.
            let (lt, fits, eq, le) =
              entry_bounds previous total total' id size kind ids k sum (max ∙ passed w) in
            Ensures-bind_with _ _ (entries-IsManifest n id total' le) λ es hes. Ensures-pure _ (
              ap suc hes.0,
              (lt, (validate_path_iff path).0 (v ∙ passed u), fits, hes.1),
              omega (arith, hes.2),
            )

pub manifest-IsAccepted : Ensures IsAccepted Decode.decode_manifest
unfolding Decode.decode_manifest
manifest-IsAccepted = Ensures-bind _ _ λ t. Ensures-bind _ _ λ n. Ensures-check _ _ _ λ few.
    Ensures-bind_with _ _ (entries-IsManifest n 0 0 (omega arith)) λ es hes.
      Ensures-pure _ (ground (arith, hes.0), ground (arith, hes.0), hes.1, omega (arith, hes.2))
