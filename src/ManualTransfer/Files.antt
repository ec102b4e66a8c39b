-- ===== src/ManualTransfer/Files.antt =====
-- crates/syntra-core/src/file_transfer.rs: the one file of a manual transfer, while it is read and while
-- it is written. What the file system answers during a call is an argument of the call.
use syntra.Prelude.{
  ℕ, ◌+◌, ◌-◌, ◌^◌, Bool, true, false, not, ◌||◌, Option, none, some, [], ◌++◌, ltb, ◌==◌,
  if◌then◌else◌, length, is_empty, bytes_eq, min,
}
use syntra.Proto.Error.{Bytes}
use syntra.Proto.Limits.{max_manual_file_chunk_size}

-- `io` carries the error of the system and whether it is `AlreadyExists`.
pub data TransferError : Type 0 where
  io : (reason : Bytes) (already_exists : Bool) → TransferError
  unsafe_path unsupported_entry : Bytes → TransferError
  too_large cancelled : TransferError
  unknown_file : (file_id : ℕ) → TransferError
  unexpected_offset size_mismatch : (file_id expected actual : ℕ) → TransferError
  digest_mismatch source_changed : (file_id : ℕ) → TransferError

-- `Result<T, TransferError>`
pub data Transfer {ℓ} (T : Type ℓ) : Type ℓ where
  failure : TransferError → Transfer T
  success : T → Transfer T

-- Functions of the libraries: SHA-256, `Path::join`, `Path::is_absolute`, and `Display` of the error type.
pub record Library : Type 0 where
  pub sha256 : Bytes → Bytes
  pub join : Bytes → Bytes → Bytes
  pub is_absolute : Bytes → Bool
  pub display : TransferError → Bytes

-- The answer to making a directory for a replacement: the directory, or what the error says.
pub data Staging : Type 0 where
  staged not_staged : Bytes → Staging

-- What the file system answers while a call runs: `read` to reading so many bytes from an offset,
-- `source` to the checks of the source's identity, `write` and `flush` to writing the destination,
-- `open` to opening the source, `prepare` to making the destination (its directory), `exists` to
-- looking for it, `stage` to making a directory for a replacement, and `rename` to moving it in place.
pub record Disk : Type 0 where
  pub open_source : Option TransferError
  pub read : ℕ → ℕ → Transfer Bytes
  pub source : Option TransferError
  pub write : Option TransferError
  pub flush : Option TransferError
  pub prepare : Transfer Bytes
  pub exists : Bool
  pub stage : Staging
  pub rename : Option Bytes

abbrev pub manual_file_id : ℕ
manual_file_id = 1

-- `OutgoingFile`, whose hasher is the bytes that it was fed.
pub record OutgoingFile : Type 0 where
  pub offset : ℕ
  pub size : ℕ
  pub hashed : Bytes

-- The one file of `IncomingTransfer`, with the bytes written so far, which are those its hasher was
-- fed; `done` once it is finalised and the transfer finished.
pub record IncomingFile : Type 0 where
  pub expected : ℕ
  pub offset : ℕ
  pub written : Bytes
  pub done : Bool

-- `FileOffer::open` at offset 0, for the offer's only entry.
unfoldable pub open_offer : Disk → ℕ → Transfer OutgoingFile
open_offer disk size = elim disk.open_source [
  | none ↦ success (record { offset = 0; size = size; hashed = [] })
  | some e ↦ failure e
]

-- The bytes read, of which the loop of reads leaves none missing.
unfoldable pub read_chunk :
    OutgoingFile → ℕ → Transfer Bytes → Transfer (OutgoingFile × Option (ℕ × Bytes))
read_chunk source requested (failure e) = failure e
read_chunk source requested (success bytes) =
    if not (length bytes == requested)
    then failure (source_changed manual_file_id)
    else if not (ltb (source.offset + requested) (2 ^ 64))
    then failure too_large
    else success (
      record source { offset = source.offset + requested; hashed = source.hashed ++ bytes },
      some (source.offset, bytes),
    )

-- `OutgoingFile::next_chunk_bounded`
unfoldable pub next_chunk_bounded :
    Disk → OutgoingFile → ℕ → Transfer (OutgoingFile × Option (ℕ × Bytes))
next_chunk_bounded disk source max_len =
    if source.offset == source.size
    then success (source, none)
    else if max_len == 0 || ltb max_manual_file_chunk_size max_len
    then failure (unexpected_offset manual_file_id source.offset source.offset)
    else let requested = min (source.size - source.offset) max_len in
      read_chunk source requested (disk.read source.offset requested)

unfoldable pub check {ℓ} : {T : Type ℓ} → Option TransferError → Transfer T → Transfer T
check none next = next
check (some e) next = failure e

-- `OutgoingFile::finalize_digest`
unfoldable pub finalize_digest : Library → Disk → OutgoingFile → Transfer Bytes
finalize_digest lib disk source =
    if not (source.offset == source.size)
    then failure (size_mismatch manual_file_id source.size source.offset)
    else check disk.source (success (lib.sha256 source.hashed))

-- `IncomingTransfer::new` and `prepare`, for one file, give the directory and an empty file.
unfoldable pub new_incoming : ℕ → IncomingFile
new_incoming size = record { expected = size; offset = 0; written = []; done = false }

-- `IncomingTransfer::write_chunk`
unfoldable pub write_file : Disk → IncomingFile → ℕ → Bytes → Transfer IncomingFile
write_file disk file offset bytes =
    if is_empty bytes || ltb max_manual_file_chunk_size (length bytes)
    then failure (unexpected_offset manual_file_id offset offset)
    else if file.done
    then failure (unknown_file manual_file_id)
    else if not (offset == file.offset)
    then failure (unexpected_offset manual_file_id file.offset offset)
    else if not (ltb (offset + length bytes) (2 ^ 64))
    then failure too_large
    else if ltb file.expected (offset + length bytes)
    then failure (size_mismatch manual_file_id file.expected (offset + length bytes))
    else check disk.write
        (success (record file { offset = offset + length bytes; written = file.written ++ bytes }))

-- `IncomingTransfer::finalize_file` and, after it, `finish`.
unfoldable pub finalize_file : Library → Disk → IncomingFile → ℕ → Bytes → Transfer IncomingFile
unfolding bytes_eq
finalize_file lib disk file size digest =
    if file.done
    then failure (unknown_file manual_file_id)
    else if not (size == file.expected) || not (file.offset == file.expected)
    then failure (size_mismatch manual_file_id size file.offset)
    else check disk.flush (
        if not (bytes_eq (lib.sha256 file.written) digest)
        then failure (digest_mismatch manual_file_id)
        else success (record file { done = true }))
