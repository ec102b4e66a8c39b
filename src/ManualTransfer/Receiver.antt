-- ===== src/ManualTransfer/Receiver.antt =====
-- crates/syntra-core/src/manual_transfer.rs: `prepare_receiver`, `write_chunk`, `complete_receiver` and
-- `finish_receiver`.
use syntra.Prelude.{
  ℕ, ◌+◌, ◌^◌, Bool, true, false, not, ◌&&◌, ◌||◌, Option, none, some, List, [], ◌∷◌, ltb, leb,
  ◌==◌, if◌then◌else◌, length, is_empty, codes, bytes_eq,
}
use syntra.Proto.Error.{Bytes}
use syntra.Proto.Event.{ProtoEvent, ManualDecision}
use syntra.Proto.Limits.{max_manual_file_chunk_size}
use syntra.ManualTransfer.Files.{
  Transfer, success, failure, TransferError, io, IncomingFile, Disk, Library, new_incoming,
  write_file, finalize_file,
}
use syntra.ManualTransfer.Record.{
  Record, ManualAction, transferring, completed, failed, is_terminal, is_awaiting, is_transferring,
  is_receiving, request, notify, notify_with, incoming_file_offer, send, peer_failure,
  offer_response, offer_snapshot, terminal, fail, progress, local_receive_error,
  remote_not_accepted_error, remote_preparation_error,
}
use syntra.ManualTransfer.Sender.{answering}

abbrev is_already_there : TransferError → Bool
is_already_there (io reason already_exists) = already_exists
is_already_there _ = false

-- `early_digest.is_some_and(|previous| previous != digest)`
unfoldable pub differs : Option Bytes → Bytes → Bool
unfolding bytes_eq
differs none digest = false
differs (some previous) digest = not (bytes_eq previous digest)

module _ {P : Type 0} (lib : Library) where
  -- The destination was made in a directory.
  unfoldable pub receive_into : Record P → Bytes → ℕ → Record P × List (ManualAction P)
  receive_into r directory now =
      let accepted = ProtoEvent.manual_file_decision r.id ManualDecision.accepted in
      let ready : Record P = record r {
        destination = some (lib.join directory r.name);
        incoming = some (new_incoming r.size);
        state = transferring;
        error = none;
        last_activity = now;
        last_notification = now;
        retries = 0;
        retry_event = some accepted;
      } in
      (ready, send ready accepted ∷ notify ready ∷ [])

  -- It could not be made: the user is asked if a file of that name is there, and else an automatic
  -- transfer fails and another one waits for another answer of the user.
  unfoldable pub not_prepared :
      Record P → Bytes → ℕ → Bool → TransferError → Bool → Record P × List (ManualAction P)
  not_prepared r directory now automatic e exists =
      let message = local_receive_error lib e in
      let asked : Record P = record r { error = some message; destination = some directory } in
      let broken : Record P = record (terminal r failed (some message) now) {
        final_result = some (false, some remote_preparation_error);
      } in
      let waiting : Record P = record r { error = some message } in
      if automatic && (is_already_there e && exists)
      then (
        asked,
        send asked (ProtoEvent.manual_file_decision r.id ManualDecision.pending)
            ∷ notify asked
            ∷ notify_with (incoming_file_offer (offer_snapshot asked))
            ∷ [],
      )
      else if automatic
      then (
        answering broken,
        peer_failure r.peer r.id remote_preparation_error ∷ notify (answering broken) ∷ [],
      )
      else (waiting, notify waiting ∷ [])

  unfoldable pub prepared :
      Disk → Record P → Bytes → ℕ → Bool → Transfer Bytes → Record P × List (ManualAction P)
  prepared disk r directory now automatic (success made) = receive_into r made now
  prepared disk r directory now automatic (failure e) =
      not_prepared r directory now automatic e disk.exists

  unfoldable pub prepare_receiver :
      Disk → Record P → Bytes → ℕ → Bool → Record P × List (ManualAction P)
  prepare_receiver disk r directory now automatic =
      if not (is_receiving r.direction) || not (is_awaiting r.state)
      then (r, [])
      else if leb r.approval_deadline now
      then fail r (codes "file offer expired") now
      else prepared disk r directory now automatic (
          if lib.is_absolute directory
          then disk.prepare
          else failure (io (codes "destination must be an absolute directory") false))

  unfoldable pub completed_record : Record P → ℕ → Record P × List (ManualAction P)
  completed_record r now =
      let done : Record P =
        answering (record (terminal r completed none now) { final_result = some (true, none) }) in
      (done, send done (ProtoEvent.manual_file_result r.id true none) ∷ notify done ∷ [])

  -- The staged file takes the place of the one that is there.
  unfoldable pub replace :
      Record P → ℕ → Option (Bytes × Bytes) → Option Bytes → Record P × List (ManualAction P)
  replace r now none error = completed_record r now
  replace r now (some staged) none = completed_record r now
  replace r now (some staged) (some error) = fail r error now

  unfoldable pub finished :
      Disk → Record P → ℕ → Transfer IncomingFile → Record P × List (ManualAction P)
  finished disk r now (failure e) = fail r (local_receive_error lib e) now
  finished disk r now (success file) =
      replace (record r { incoming = some file }) now r.replacement disk.rename

  unfoldable pub finish_receiver :
      Disk → Record P → IncomingFile → Bytes → ℕ → Record P × List (ManualAction P)
  finish_receiver disk r incoming digest now =
      finished disk r now (finalize_file lib disk incoming r.size digest)

  -- After a write: the digest may have come before the last of the data.
  unfoldable pub after_write :
      Disk → Record P → IncomingFile → ℕ → Option Bytes → Record P × List (ManualAction P)
  after_write disk r incoming now none =
      let pull = request r.id r.transferred in
      progress (record r { retry_event = some pull }) now (send r pull ∷ [])
  after_write disk r incoming now (some digest) =
      finish_receiver disk (record r { early_digest = none }) incoming digest now

  unfoldable pub written :
      Disk → Record P → ℕ → ℕ → Transfer IncomingFile → Record P × List (ManualAction P)
  written disk r end now (failure e) = fail r (local_receive_error lib e) now
  written disk r end now (success file) =
      let grown : Record P = record r {
        incoming = some file;
        transferred = end;
        last_activity = now;
        retries = 0;
      } in
      after_write disk grown file now (if end == r.size then r.early_digest else none)

  -- A chunk for a file that is being received.
  unfoldable pub write_data :
      Disk → Record P → IncomingFile → ℕ → Bytes → ℕ → Record P × List (ManualAction P)
  write_data disk r incoming offset bytes now =
      let end = offset + length bytes in
      if not (ltb end (2 ^ 64))
        || (is_empty bytes || (ltb max_manual_file_chunk_size (length bytes) || ltb r.size end))
      then fail r (codes "invalid file chunk") now
      else if not (offset == r.transferred)
      then if ltb offset r.transferred && ltb r.transferred end
        then fail r (codes "overlapping file chunk") now
        else (r, send r (request r.id r.transferred) ∷ [])
      else written disk r end now (write_file disk incoming offset bytes)

  -- `record.final_result.as_ref().map(..).unwrap_or_default()`
  abbrev repeat_result : Record P → Option (Bool × Option Bytes) → List (ManualAction P)
  repeat_result r none = []
  repeat_result r (some result) = send r (offer_response r) ∷ []

  unfoldable pub write_opened :
      Disk → Record P → ℕ → Bytes → ℕ → Option IncomingFile → Record P × List (ManualAction P)
  write_opened disk r offset bytes now none =
      (r, peer_failure r.peer r.id remote_not_accepted_error ∷ [])
  write_opened disk r offset bytes now (some incoming) =
      if not (is_transferring r.state)
      then (r, peer_failure r.peer r.id remote_not_accepted_error ∷ [])
      else write_data disk r incoming offset bytes now

  unfoldable pub write_chunk : Disk → Record P → ℕ → Bytes → ℕ → Record P × List (ManualAction P)
  write_chunk disk r offset bytes now =
      if not (is_receiving r.direction)
      then (r, [])
      else if is_terminal r.state
      then (r, repeat_result r r.final_result)
      else write_opened disk r offset bytes now r.incoming

  unfoldable pub complete_opened :
      Disk → Record P → Bytes → ℕ → Option IncomingFile → Record P × List (ManualAction P)
  complete_opened disk r digest now none =
      (r, peer_failure r.peer r.id remote_not_accepted_error ∷ [])
  complete_opened disk r digest now (some incoming) =
      if not (is_transferring r.state)
      then (r, peer_failure r.peer r.id remote_not_accepted_error ∷ [])
      else if r.transferred == r.size
      then finish_receiver disk r incoming digest now
      else if differs r.early_digest digest
      then fail r (codes "conflicting file digest") now
      else (record r { early_digest = some digest }, send r (request r.id r.transferred) ∷ [])

  unfoldable pub complete_receiver : Disk → Record P → Bytes → ℕ → Record P × List (ManualAction P)
  complete_receiver disk r digest now =
      if not (is_receiving r.direction)
      then (r, [])
      else if is_terminal r.state
      then (r, send r (offer_response r) ∷ [])
      else complete_opened disk r digest now r.incoming
