-- ===== src/ManualTransfer/Requests.antt =====
-- crates/syntra-core/src/manual_transfer.rs: what the user asks for.
use syntra.Prelude.{
  ℕ, Bool, true, false, not, ◌&&◌, ◌||◌, Option, none, some, List, [], ◌∷◌, ◌++◌, leb,
  if◌then◌else◌, codes, map,
}
use syntra.Proto.Error.{Bytes}
use syntra.Proto.Event.{ProtoEvent, ManualDecision}
use syntra.ManualTransfer.Files.{TransferError, Disk, Library, Staging, staged, not_staged}
use syntra.ManualTransfer.Record.{
  Record, ManualAction, notify_with, manual_transfer_error, sending, offering, declined, cancelled,
  is_terminal, is_awaiting, is_transferring, is_receiving, notify, send, send_to, terminal,
  local_source_error, manual_transfer_status,
}
use syntra.ManualTransfer.Receiver.{prepare_receiver}
use syntra.ManualTransfer.Table.{
  ManualTransfers, max_records, find, active, store, on_record, next_transfer_id, new_record,
}

-- What `FileOffer::from_regular_file` answers for a path: the file's name and size, an error, or the
-- failure of the thread that looks at it.
pub data Preparation : Type 0 where
  found : (name : Bytes) (size : ℕ) → Preparation
  refused : TransferError → Preparation
  broken : Bytes → Preparation

module _ {P : Type 0} where
  abbrev complain : Bytes → ManualAction P
  complain message = notify_with (manual_transfer_error message)

  -- The record of a file that is offered to a peer.
  unfoldable pub offered : P → Bytes → ℕ → Bytes → ℕ → ℕ → Record P
  offered peer fingerprint id name size now =
      record (new_record peer fingerprint id name size sending offering now) {
        offer = some size;
        retry_event = some (ProtoEvent.manual_file_offer id name size);
      }

  module _ (lib : Library) where
    -- One path that has an identifier.
    unfoldable pub send_prepared :
        ManualTransfers P
        → P
        → Bytes
        → ℕ
        → ℕ
        → Preparation
        → ManualTransfers P × List (ManualAction P)
    send_prepared s peer fingerprint now id (found name size) =
        let r = offered peer fingerprint id name size now in
        (store s r, send_to peer (ProtoEvent.manual_file_offer id name size) ∷ notify r ∷ [])
    send_prepared s peer fingerprint now id (refused e) =
        (s, complain (local_source_error lib e) ∷ [])
    send_prepared s peer fingerprint now id (broken message) =
        (s, complain (codes "file source preparation failed: " ++ message) ∷ [])

    -- One path; the loop goes on unless there is no room or no identifier.
    unfoldable pub send_file :
        ManualTransfers P
        → P
        → Bytes
        → ℕ
        → Preparation
        → Option ℕ
        → (ManualTransfers P × List (ManualAction P)) × Bool
    send_file s peer fingerprint now preparation none =
        ((s, complain (codes "could not create a file transfer identifier") ∷ []), false)
    send_file s peer fingerprint now preparation (some id) =
        (send_prepared s peer fingerprint now id preparation, true)

    -- A path when there is room for it.
    unfoldable pub send_path :
        ManualTransfers P
        → P
        → Bytes
        → ℕ
        → List (Option ℕ)
        → Preparation
        → (ManualTransfers P × List (ManualAction P)) × Bool
    send_path s peer fingerprint now draws preparation =
        if leb max_records (active s.records)
        then ((s, complain (codes "too many active file transfers") ∷ []), false)
        else send_file s peer fingerprint now preparation (next_transfer_id s.records draws)

    -- Each path comes with the numbers drawn for it and what is found there.
    unfoldable pub send_files :
        ManualTransfers P
        → P
        → Bytes
        → List (List (Option ℕ) × Preparation)
        → ℕ
        → ManualTransfers P × List (ManualAction P)
    send_files s peer fingerprint [] now = (s, [])
    send_files s peer fingerprint ((draws, preparation) ∷ paths) now =
        let ((t, actions), goes_on) = send_path s peer fingerprint now draws preparation in
        let (u, more) = send_files t peer fingerprint paths now in
        if goes_on then (u, actions ++ more) else (t, actions)

    unfoldable pub accept :
        Disk → ManualTransfers P → Bytes → ℕ → Bytes → ℕ → ManualTransfers P × List (ManualAction P)
    accept disk s fingerprint id directory now =
        on_record s (fingerprint, id) (find s.records (fingerprint, id)) []
          (λ r. prepare_receiver lib disk r directory now false)

    -- The status that is shown names the directory, not the staging one.
    abbrev redirect : Bytes → ManualAction P → ManualAction P
    redirect directory (notify_with (manual_transfer_status status)) =
        notify_with (manual_transfer_status (record status { destination = some directory }))
    redirect directory action = action

    unfoldable pub redirected :
        Bytes → Bytes → Record P × List (ManualAction P) → Record P × List (ManualAction P)
    redirected directory staging (r, actions) =
        if is_transferring r.state
        then (
          record r {
            destination = some directory;
            replacement = some (staging, lib.join directory r.name);
          },
          map (redirect directory) actions,
        )
        else (r, actions)

    unfoldable pub overwrite_staged :
        Disk → Record P → Bytes → ℕ → Staging → Record P × List (ManualAction P)
    overwrite_staged disk r directory now (staged staging) =
        redirected directory staging (prepare_receiver lib disk r staging now false)
    overwrite_staged disk r directory now (not_staged message) =
        (record r { error = some message }, notify (record r { error = some message }) ∷ [])

    unfoldable pub overwrite_record : Disk → Record P → Bytes → ℕ → Record P × List (ManualAction P)
    overwrite_record disk r directory now =
        if not (is_receiving r.direction) || not (is_awaiting r.state)
        then (r, [])
        else overwrite_staged disk r directory now (
            if lib.is_absolute directory
            then disk.stage
            else not_staged (codes "destination must be an absolute directory"))

    unfoldable pub overwrite :
        Disk → ManualTransfers P → Bytes → ℕ → Bytes → ℕ → ManualTransfers P × List (ManualAction P)
    overwrite disk s fingerprint id directory now =
        on_record s (fingerprint, id) (find s.records (fingerprint, id)) []
          (λ r. overwrite_record disk r directory now)

  unfoldable pub decline_record : Record P → ℕ → Record P × List (ManualAction P)
  decline_record r now =
      let ended = terminal r declined none now in
      if is_receiving r.direction && is_awaiting r.state
      then (
        ended,
        send ended (ProtoEvent.manual_file_decision r.id ManualDecision.declined)
            ∷ notify ended
            ∷ [],
      )
      else (r, [])

  unfoldable pub decline :
      ManualTransfers P → Bytes → ℕ → ℕ → ManualTransfers P × List (ManualAction P)
  decline s fingerprint id now =
      on_record s (fingerprint, id) (find s.records (fingerprint, id)) []
        (λ r. decline_record r now)

  unfoldable pub cancel_record : Record P → ℕ → Record P × List (ManualAction P)
  cancel_record r now =
      let ended = terminal r cancelled none now in
      if not (is_terminal r.state)
      then (ended, send ended (ProtoEvent.manual_file_cancel r.id) ∷ notify ended ∷ [])
      else (r, [])

  unfoldable pub cancel :
      ManualTransfers P → Bytes → ℕ → ℕ → ManualTransfers P × List (ManualAction P)
  cancel s fingerprint id now =
      on_record s (fingerprint, id) (find s.records (fingerprint, id)) [] (λ r. cancel_record r now)
