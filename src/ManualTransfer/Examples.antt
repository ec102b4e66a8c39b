-- ===== src/ManualTransfer/Examples.antt =====
-- Manual transfers of crates/syntra-core/src/manual_transfer.rs on concrete files.
use syntra.Prelude.{
  ℕ, ◌≤◌, ◌+◌, ◌*◌, bytes_eq, ◌≡◌, refl, Bool, true, false, Option, none, some, List, [], ◌∷◌,
  arith, codes, take, drop, min, length,
}
use syntra.Proto.Error.{Bytes}
use syntra.Proto.Event.{ProtoEvent}
use syntra.ManualTransfer.Files.{
  Disk, Library, TransferError, success, staged, finalize_file, check,
}
use syntra.ManualTransfer.Record.{Record, ManualAction, transferring, is_terminal, terminal}
use syntra.ManualTransfer.Receiver.{
  prepare_receiver, complete_receiver, complete_opened, finish_receiver, finished, replace,
  completed_record,
}
use syntra.ManualTransfer.Table.{empty, new_record}
use syntra.ManualTransfer.Messages.{handle}
use syntra.ManualTransfer.Requests.{offered, Preparation, found, send_files}
use syntra.ManualTransfer.Conversation.{sent, converse}
use syntra.ManualTransfer.Sends.{Reads}
use syntra.ManualTransfer.Receives.{Writes}
use syntra.ManualTransfer.Pull.{BothAt, BothCompleted}
use syntra.ManualTransfer.Handshake.{offered_to, transfer_receives, transfer_completes}
use syntra.ManualTransfer.Afterwards.{subject, handle_protocol-ended}
use syntra.ManualTransfer.Expiry.{Spaced, ticks, ticks_end}
use syntra.ManualTransfer.Digest.{Received, handle-Received}
use syntra.ManualTransfer.Calls.{new, after, by_send, by_tick, reachable-Within}
use syntra.ManualTransfer.Clock.{tick}
use syntra.ManualTransfer.Remembered.{ended, Apart}
use syntra.ManualTransfer.Table.{
  ManualTransfers, FileReceiveSettings, active, store, trim, contains, remove, same, find,
  on_record, put_back,
}
use syntra.ManualTransfer.Files.{write_file, new_incoming}
use syntra.ManualTransfer.Receiver.{
  prepared, receive_into, write_chunk, write_opened, write_data, written, after_write,
}
use syntra.ManualTransfer.Record.{progress, offer_response}
use syntra.ManualTransfer.Messages.{
  handle_protocol, handle_known, receive_offer, receive_known, receive_new, answer_offer,
  transfer_id_of,
}
use syntra.ManualTransfer.Calls.{by_message, Reachable}
use syntra.Proto.Names as Names
use syntra.Proto.Names.{
  validate_manual_file_name, has_bad_shape, is_device_stem, stem_of, split, trim_end_spaces,
  starts_with, ends_with, eq_ignore_ascii_case,
}

abbrev file : Bytes
file = codes "hello"

-- A checksum of one byte stands for the digest.
abbrev checksum : Bytes → Bytes
checksum [] = []
checksum (b ∷ bytes) = (b + length bytes) ∷ []

abbrev show : TransferError → Bytes
show e = codes "error"

abbrev join : Bytes → Bytes → Bytes
join directory name = name

abbrev absolute : Bytes → Bool
absolute path = true

abbrev library : Library
library = record { sha256 = checksum; join = join; is_absolute = absolute; display = show }

abbrev disk : Disk
disk = record {
  open_source = none;
  read = λ offset n. success (take n (drop offset file));
  source = none;
  write = none;
  flush = none;
  prepare = success (codes "/tmp");
  exists = false;
  stage = staged (codes "/tmp/x");
  rename = none;
}

disk-Reads : Reads file disk
disk-Reads = record { opens = refl; reads = λ offset n. refl; unchanged = refl }

disk-Writes : Writes disk
disk-Writes = record { writes = refl; flushes = refl; renames = refl }

abbrev incoming : Record ℕ × List (ManualAction ℕ)
incoming =
    prepare_receiver library disk
      (offered_to 1 (codes "left") 7 (codes "a.txt") 5 (codes "/tmp") 10) (codes "/tmp") 20 false

transfer_receives_example : BothAt file (min (length file) (1 * 1183)) (
    converse library disk disk
      (30 ∷ 50 ∷ [])
      (offered 2 (codes "right") 7 (codes "a.txt") 5 10)
      incoming.0
      (sent incoming.1))
transfer_receives_example =
    transfer_receives library disk disk file (codes "/tmp") (codes "/tmp") refl refl 2 1
      (codes "right") (codes "left") 7 (codes "a.txt") 10 10 20 30 (omega arith) (omega arith)
      (50 ∷ []) disk-Reads disk-Writes (omega arith) (omega arith)

transfer_completes_example : BothCompleted (
    converse library disk disk
      (30 ∷ 50 ∷ 60 ∷ 70 ∷ [])
      (offered 2 (codes "right") 7 (codes "a.txt") 5 10)
      incoming.0
      (sent incoming.1))
transfer_completes_example =
    transfer_completes library disk disk file (codes "/tmp") (codes "/tmp") refl refl 2 1
      (codes "right") (codes "left") 7 (codes "a.txt") 10 10 20 30 (omega arith) (omega arith)
      (50 ∷ 60 ∷ 70 ∷ []) disk-Reads disk-Writes (omega arith) (omega arith)

-- An offer that is accepted at once, and the whole file in one chunk.
abbrev settings : FileReceiveSettings
settings = record { auto_accept = true; download_directory = codes "/tmp" }

abbrev accepting : ManualTransfers ℕ
accepting =
    (handle_protocol library disk empty 1 (codes "left")
      (ProtoEvent.manual_file_offer 7 (codes "a.txt") 5) settings 10).0

abbrev holding : ManualTransfers ℕ
holding =
    (handle_protocol library disk accepting 1 (codes "left") (ProtoEvent.manual_file_chunk 7 0 file)
      settings 20).0

holding-Reachable : Reachable library holding
holding-Reachable =
    after (after new (by_message disk 1 (codes "left") _ settings 10))
      (by_message disk 1 (codes "left") _ settings 20)

abbrev the_one : List (Record ℕ) → Record ℕ
the_one [] = offered_to 1 (codes "left") 7 (codes "a.txt") 5 (codes "/tmp") 10
the_one (r ∷ records) = r

holding-find : find holding.records (codes "left", 7) ≡ some (the_one holding.records)
unfolding handle_protocol receive_offer receive_known receive_new answer_offer prepare_receiver
    prepared receive_into store trim contains remove same find empty new_record active handle_known
    transfer_id_of on_record put_back handle write_chunk write_opened write_data write_file written
    after_write progress complete_receiver complete_opened finish_receiver finished finalize_file
    check replace completed_record terminal offer_response validate_manual_file_name has_bad_shape
    is_device_stem stem_of split trim_end_spaces starts_with ends_with Names.contains
    eq_ignore_ascii_case bytes_eq new_incoming
holding-find = refl

handle-Received_example :
    Received library disk
      (record (the_one holding.records) { peer = 2 })
      (ProtoEvent.manual_file_complete 7 (checksum file))
unfolding handle_protocol receive_offer receive_known receive_new answer_offer prepare_receiver
    prepared receive_into store trim contains remove same find empty new_record active handle_known
    transfer_id_of on_record put_back handle write_chunk write_opened write_data write_file written
    after_write progress complete_receiver complete_opened finish_receiver finished finalize_file
    check replace completed_record terminal offer_response validate_manual_file_name has_bad_shape
    is_device_stem stem_of split trim_end_spaces starts_with ends_with Names.contains
    eq_ignore_ascii_case bytes_eq new_incoming
handle-Received_example =
    handle-Received library disk holding (codes "left", 7) (the_one holding.records) 2
      (ProtoEvent.manual_file_complete 7 (checksum file)) 40 holding-Reachable holding-find refl
      refl refl

abbrev received : ManualTransfers ℕ
received =
    (handle_protocol library disk holding 1 (codes "left")
      (ProtoEvent.manual_file_complete 7 (checksum file)) settings 30).0

received-find : find received.records (codes "left", 7) ≡ some (the_one received.records)
unfolding handle_protocol receive_offer receive_known receive_new answer_offer prepare_receiver
    prepared receive_into store trim contains remove same find empty new_record active handle_known
    transfer_id_of on_record put_back handle write_chunk write_opened write_data write_file written
    after_write progress complete_receiver complete_opened finish_receiver finished finalize_file
    check replace completed_record terminal offer_response validate_manual_file_name has_bad_shape
    is_device_stem stem_of split trim_end_spaces starts_with ends_with Names.contains
    eq_ignore_ascii_case bytes_eq new_incoming
received-find = refl

-- A cancel that comes too late, from another address.
handle_protocol-ended_example :
    (x : ℕ) × (find
        (handle_protocol library disk received 2
          (codes "left")
          (ProtoEvent.manual_file_cancel 7)
          settings
          50).0.records
        (codes "left", 7)
      ≡ some (record (the_one received.records) { peer = x }))
unfolding handle_protocol receive_offer receive_known receive_new answer_offer prepare_receiver
    prepared receive_into store trim contains remove same find empty new_record active handle_known
    transfer_id_of on_record put_back handle write_chunk write_opened write_data write_file written
    after_write progress complete_receiver complete_opened finish_receiver finished finalize_file
    check replace completed_record terminal offer_response validate_manual_file_name has_bad_shape
    is_device_stem stem_of split trim_end_spaces starts_with ends_with Names.contains
    eq_ignore_ascii_case bytes_eq new_incoming subject
handle_protocol-ended_example =
    handle_protocol-ended library disk received 2 (codes "left") 7 (the_one received.records)
      (ProtoEvent.manual_file_cancel 7) settings 50
      (after holding-Reachable (
        by_message disk 1 (codes "left") (ProtoEvent.manual_file_complete 7 (checksum file))
          settings 30))
      received-find refl refl

-- A record whose last byte has come.
abbrev arrived : Record ℕ
arrived = record (offered_to 1 (codes "left") 7 (codes "a.txt") 5 (codes "/tmp") 10) {
  state = transferring;
  transferred = 5;
  incoming = some (record { expected = 5; offset = 5; written = file; done = false });
}

ticks_end_example :
    is_terminal (ticks (600_010 ∷ 605_010 ∷ 610_010 ∷ 615_010 ∷ []) arrived).state ≡ true
unfolding new_record Spaced
ticks_end_example =
    ticks_end (600_010 ∷ 605_010 ∷ 610_010 ∷ 615_010 ∷ []) arrived (omega arith) (omega arith)
      ((omega arith, (omega arith, (omega arith, (omega arith, tt)))))
      ((omega arith, (omega arith, (omega arith, (omega arith, tt)))))

abbrev paths : List (List (Option ℕ) × Preparation)
paths = (some 7 ∷ [], found (codes "a.txt") 5) ∷ []

reachable-Within_example :
    (active {P = ℕ} (tick (send_files library empty 2 (codes "right") paths 10).0 6000).0.records
      ≤ 32)
    × (ended {P = ℕ} (tick (send_files library empty 2 (codes "right") paths 10).0 6000).0.records
        ≤ 100)
    × Apart {P = ℕ} (tick (send_files library empty 2 (codes "right") paths 10).0 6000).0.records
reachable-Within_example =
    reachable-Within library (after (after new (by_send 2 (codes "right") paths 10)) (by_tick 6000))
