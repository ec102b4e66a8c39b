-- ===== src/Proto/Accepted/Event.antt =====
-- What a receiver may rely on: the bounds that every decoded event of crates/syntra-proto keeps.
use syntra.Prelude.{
  ℕ, ◌+◌, ◌*◌, ◌≤◌, ◌<◌, ◌≡◌, ◌≢◌, ◌⊎◌, true, Option, none, some, List, [], ◌∷◌, length, All,
}
use syntra.Proto.Error.{Bytes}
use syntra.Proto.Wire.Utf8.{is_utf8}
use syntra.Proto.Event.{
  ProtoEvent, Boundary, ClipboardManifestEntry, ClipboardEntryKind, file, directory,
}
use syntra.Proto.Validate.Counts.{Covers}
use syntra.Proto.Names.Parts.{IsComponent, join}

abbrev pub max_size : ℕ
max_size = 64 * 1024 * 1024

-- A float between 0.0 and 1.0, by its bits; -0.0 is among them.
abbrev pub IsFraction : ℕ → Type 0
IsFraction bits = (bits ≤ 0x3f80_0000) ⊎ (bits ≡ 0x8000_0000)

-- A range within a file: not empty, at most one chunk, and within the limit.
abbrev pub IsRange : ℕ → ℕ → Type 0
IsRange offset count = (0 < count) × (count ≤ 1167) × (offset + count ≤ max_size)

-- A relative path of components, as `validate_path_iff` has it.
abbrev pub IsRelativePath : Bytes → Type 0
IsRelativePath path =
    (p : Bytes) × (parts : List Bytes) × All IsComponent (p ∷ parts)
    × (join (p ∷ parts) ≡ path)
    × (length path ≤ 1024)

abbrev pub FitsKind : ClipboardEntryKind → ℕ → Type 0
FitsKind file size = Unit
FitsKind directory size = size ≡ 0

-- The entries after one with the id `previous`: ids increase, paths are relative, directories have
-- no size.
abbrev pub IsManifest : ℕ → List ClipboardManifestEntry → Type 0
IsManifest previous [] = Unit
IsManifest previous (e ∷ es) =
    (previous < e.file_id)
    × IsRelativePath e.path
    × FitsKind e.kind e.size
    × IsManifest e.file_id es

abbrev pub total_size : List ClipboardManifestEntry → ℕ
total_size [] = 0
total_size (e ∷ es) = e.size + total_size es

abbrev pub IsDeviceId : Bytes × ℕ → Type 0
IsDeviceId (device_id, sequence) =
    (0 < length device_id) × (length device_id ≤ 128) × (is_utf8 device_id ≡ true)

abbrev pub IsAcceptedBoundary : Boundary → Type 0
IsAcceptedBoundary boundary = (length boundary ≤ 100) × All IsDeviceId boundary

abbrev pub IsShortText : Option Bytes → Type 0
IsShortText none = Unit
IsShortText (some text) = length text ≤ 512

abbrev pub IsAccepted : ProtoEvent → Type 0
IsAccepted (ProtoEvent.leave_at along) = IsFraction along
IsAccepted (ProtoEvent.enter_at side along) = IsFraction along
IsAccepted (ProtoEvent.handoff target side) = (length target ≤ 128) × (is_utf8 target ≡ true)
IsAccepted (ProtoEvent.enter_via side target) = (length target ≤ 128) × (is_utf8 target ≡ true)
IsAccepted (ProtoEvent.hello commit) = length commit ≡ 8
IsAccepted (ProtoEvent.profile_request r) = 0 < r
IsAccepted (ProtoEvent.profile_start r w h l c name) =
    (0 < r)
    × (w ≤ 128)
    × (h ≤ 128)
    × (l ≡ w * h * 4)
    × (0 < l → 0 < c)
    × (length name ≤ 128)
    × (is_utf8 name ≡ true)
IsAccepted (ProtoEvent.profile_chunk r i bytes) =
    (0 < r) × (0 < length bytes) × (length bytes ≤ 1187)
IsAccepted (ProtoEvent.clipboard_start t l c) = (l ≤ max_size) × Covers 16371 l c
IsAccepted (ProtoEvent.clipboard_image_start t w h l c) =
    (l ≡ w * h * 4) × (l ≤ max_size) × Covers 16371 l c
IsAccepted (ProtoEvent.clipboard_manifest t entries) =
    (0 < length entries)
    × (length entries ≤ 256)
    × IsManifest 0 entries
    × (total_size entries ≤ max_size)
IsAccepted (ProtoEvent.clipboard_file_request t f r o l) = (0 < f) × (0 < r) × IsRange o l
IsAccepted (ProtoEvent.clipboard_file_chunk t f r o bytes) =
    (0 < f) × (0 < r) × IsRange o (length bytes)
IsAccepted (ProtoEvent.clipboard_file_complete t f r n digest) =
    (0 < f) × (0 < r) × (n ≤ max_size) × (length digest ≡ 32)
IsAccepted (ProtoEvent.clipboard_transfer_cancel t f r) = f ≢ some 0
IsAccepted (ProtoEvent.clipboard_transfer_progress t f c n) = (0 < f) × (c ≤ n) × (n ≤ max_size)
IsAccepted (ProtoEvent.history_record_start r i l c) = (0 < l) × (l ≤ 50331648) × Covers 1179 l c
IsAccepted (ProtoEvent.history_record_chunk r i x bytes) =
    (0 < length bytes) × (length bytes ≤ 1179)
IsAccepted (ProtoEvent.manual_file_offer t name size) =
    (0 < t) × IsComponent name × (length name ≤ 1024) × (is_utf8 name ≡ true)
IsAccepted (ProtoEvent.manual_file_decision t d) = 0 < t
IsAccepted (ProtoEvent.manual_file_request t o l) = (0 < t) × (0 < l) × (l ≤ 1183)
IsAccepted (ProtoEvent.manual_file_chunk t o bytes) =
    (0 < t) × (0 < length bytes) × (length bytes ≤ 1183)
IsAccepted (ProtoEvent.manual_file_complete t digest) = (0 < t) × (length digest ≡ 32)
IsAccepted (ProtoEvent.manual_file_result t success error) = (0 < t) × IsShortText error
IsAccepted (ProtoEvent.manual_file_cancel t) = 0 < t
IsAccepted (ProtoEvent.history_clear_boundary_request id) = length id ≡ 16
IsAccepted (ProtoEvent.history_clear_boundary id boundary) =
    (length id ≡ 16) × IsAcceptedBoundary boundary
IsAccepted (ProtoEvent.history_clear_apply id boundary) =
    (length id ≡ 16) × IsAcceptedBoundary boundary
IsAccepted (ProtoEvent.history_clear_ack id affected error) = length id ≡ 16
IsAccepted _ = Unit
