-- ===== src/ManualTransfer/Intact.antt =====
-- crates/syntra-core/src/manual_transfer.rs: what is counted as received is what was written.
use syntra.Prelude.{
  ℕ, subst, ◌+◌, ◌≡◌, refl, Bool, true, false, not, ◌&&◌, Option, none, some, List, arith, ◌==◌,
  length, length-append, is_empty, inl, inr, Bool-cases, Option-cases, codes,
}
use syntra.Proto.Error.{Bytes}
use syntra.Proto.Event.{ProtoEvent, ManualDecision}
use syntra.ManualTransfer.Files.{
  Disk, Library, Transfer, success, failure, io, OutgoingFile, IncomingFile, Staging, staged,
  not_staged, finalize_file, check, write_file, open_offer, new_incoming,
}
use syntra.ManualTransfer.Record.{
  Record, ManualAction, Direction, sending, receiving, fail, terminal, progress,
}
use syntra.ManualTransfer.Receiver.{
  receive_into, not_prepared, prepared, prepare_receiver, completed_record, replace,
  finish_receiver, finished, after_write, written, write_data, write_opened, write_chunk,
  complete_opened, complete_receiver,
}
use syntra.ManualTransfer.Sender.{
  respond, send_digest, send_data, read_source, read_opened, open_source, read_next, send_new,
  send_cached, send_chunk, sender_accepted, receiver_accepted, decide, decision, receive_result,
}
use syntra.ManualTransfer.Messages.{handle, cancelled_by_peer, answer_offer}
use syntra.ManualTransfer.Requests.{
  redirected, overwrite_staged, overwrite_record, decline_record, cancel_record,
}
use syntra.ManualTransfer.Clock.{give_up, tick_terminal, tick_active, tick_record, refresh_record}
use syntra.ManualTransfer.Table.{FileReceiveSettings}

unfoldable pub intact : Option IncomingFile → Bool
intact none = true
intact (some file) = length file.written == file.offset

-- The bytes of a file that is being received are as many as its offset says.
abbrev pub Intact : {P : Type 0} → Record P → Type 0
Intact r = intact r.incoming ≡ true

pub write_file-intact :
    (disk : Disk) (file after : IncomingFile) (offset : ℕ) (bytes : Bytes)
    → intact (some file) ≡ true
    → write_file disk file offset bytes ≡ success after
    → intact (some after) ≡ true
unfolding write_file check intact
write_file-intact disk file after offset bytes n w = elim (Option-cases disk.write) [
  | inl q ↦ ground (arith, length-append file.written bytes)
  | inr (e, q) ↦ absurd (ground arith)
]

pub finalize_file-intact :
    (lib : Library) (disk : Disk) (file f : IncomingFile) (size : ℕ) (digest : Bytes)
    → intact (some file) ≡ true
    → finalize_file lib disk file size digest ≡ success f
    → intact (some f) ≡ true
unfolding finalize_file check intact
finalize_file-intact lib disk file f size digest n w = elim (Option-cases disk.flush) [
  | inl q ↦ ground arith
  | inr (e, q) ↦ absurd (ground arith)
]

module _ {P : Type 0} where
  fail-Intact : (r : Record P) (error : Bytes) (now : ℕ) → Intact (fail r error now).0
  unfolding fail terminal intact
  fail-Intact r error now = refl

  progress-Intact :
      (r : Record P) (now : ℕ) (actions : List (ManualAction P))
      → Intact r
      → Intact (progress r now actions).0
  unfolding progress
  progress-Intact r now actions h = ground arith

  respond-Intact :
      (r : Record P) (offset count : ℕ) (response : ProtoEvent) (now : ℕ)
      → Intact r
      → Intact (respond r offset count response now).0
  unfolding respond
  respond-Intact r offset count response now h = progress-Intact _ now _ h

  sender_accepted-Intact : (r : Record P) (now : ℕ) → Intact r → Intact (sender_accepted r now).0
  unfolding sender_accepted fail terminal intact
  sender_accepted-Intact r now h = ground arith

  receiver_accepted-Intact :
      (r : Record P) (now : ℕ) → Intact r → Intact (receiver_accepted r now).0
  unfolding receiver_accepted
  receiver_accepted-Intact r now h = ground arith

  decide-Intact :
      (r : Record P) (way : Direction) (d : ManualDecision) (now : ℕ)
      → Intact r
      → Intact (decide r way d now).0
  unfolding decide terminal intact
  decide-Intact r sending ManualDecision.pending now h = ground arith
  decide-Intact r sending ManualDecision.accepted now h = sender_accepted-Intact r now h
  decide-Intact r sending ManualDecision.declined now h = refl
  decide-Intact r receiving ManualDecision.pending now h = h
  decide-Intact r receiving ManualDecision.accepted now h =
      ground (arith, receiver_accepted-Intact r now h)
  decide-Intact r receiving ManualDecision.declined now h = h

  decision-Intact :
      (r : Record P) (d : ManualDecision) (now : ℕ) → Intact r → Intact (decision r d now).0
  unfolding decision
  decision-Intact r d now h = ground (arith, decide-Intact r r.direction d now h)

  receive_result-Intact :
      (r : Record P) (succeeded : Bool) (error : Option Bytes) (now : ℕ)
      → Intact r
      → Intact (receive_result r succeeded error now).0
  unfolding receive_result terminal intact
  receive_result-Intact r succeeded error now h = ground arith

  cancelled_by_peer-Intact :
      (r : Record P) (now : ℕ) → Intact r → Intact (cancelled_by_peer r now).0
  unfolding cancelled_by_peer terminal intact
  cancelled_by_peer-Intact r now h = ground arith

  pub decline_record-Intact : (r : Record P) (now : ℕ) → Intact r → Intact (decline_record r now).0
  unfolding decline_record terminal intact
  decline_record-Intact r now h = ground arith

  pub cancel_record-Intact : (r : Record P) (now : ℕ) → Intact r → Intact (cancel_record r now).0
  unfolding cancel_record terminal intact
  cancel_record-Intact r now h = ground arith

  pub tick_record-Intact : (r : Record P) (now : ℕ) → Intact r → Intact (tick_record r now).0
  unfolding tick_record tick_terminal tick_active give_up terminal intact
  tick_record-Intact r now h = ground arith

  pub refresh_record-Intact :
      (r : Record P) (route : Option P) (now : ℕ) → Intact r → Intact (refresh_record r route now).0
  unfolding refresh_record terminal intact
  refresh_record-Intact r none now h = ground arith
  refresh_record-Intact r (some peer) now h = h

module _ {P : Type 0} (lib : Library) (disk : Disk) where
  send_data-Intact :
      (r : Record P) (offset count now : ℕ) (t : Transfer (OutgoingFile × Option (ℕ × Bytes)))
      → Intact r
      → Intact (send_data lib r offset count now t).0
  unfolding send_data fail terminal intact
  send_data-Intact r offset count now (failure e) h = refl
  send_data-Intact r offset count now (success (source, none)) h = refl
  send_data-Intact r offset count now (success (source, some (at_offset, bytes))) h =
      elim (Bool-cases (at_offset == offset && not (is_empty bytes))) [
        | inl t ↦ rw (t) (respond-Intact _ offset count _ now h)
        | inr f ↦ rw (f) refl
      ]

  send_digest-Intact :
      (r : Record P) (source : OutgoingFile) (offset count now : ℕ) (t : Transfer Bytes)
      → Intact r
      → Intact (send_digest lib r source offset count now t).0
  unfolding send_digest fail terminal intact
  send_digest-Intact r source offset count now (failure e) h = refl
  send_digest-Intact r source offset count now (success digest) h =
      respond-Intact _ offset count _ now h

  read_source-Intact :
      (r : Record P) (offset count now : ℕ) (source : OutgoingFile)
      → Intact r
      → Intact (read_source lib disk r offset count now source).0
  unfolding read_source
  read_source-Intact r offset count now source h = elim (Bool-cases (offset == r.size)) [
    | inl t ↦ rw (t) (send_digest-Intact r source offset count now _ h)
    | inr f ↦ rw (f) (send_data-Intact r offset count now _ h)
  ]

  read_opened-Intact :
      (r : Record P) (offset count now : ℕ) (t : Transfer OutgoingFile)
      → Intact r
      → Intact (read_opened lib disk r offset count now t).0
  unfolding read_opened fail terminal intact
  read_opened-Intact r offset count now (failure e) h = refl
  read_opened-Intact r offset count now (success source) h =
      read_source-Intact r offset count now source h

  open_source-Intact :
      (r : Record P) (offset count now : ℕ) (offer : Option ℕ)
      → Intact r
      → Intact (open_source lib disk r offset count now offer).0
  unfolding open_source fail terminal intact
  open_source-Intact r offset count now none h = refl
  open_source-Intact r offset count now (some size) h =
      read_opened-Intact r offset count now (open_offer disk size) h

  read_next-Intact :
      (r : Record P) (offset count now : ℕ) (o : Option OutgoingFile)
      → Intact r
      → Intact (read_next lib disk r offset count now o).0
  unfolding read_next
  read_next-Intact r offset count now none h = open_source-Intact r offset count now r.offer h
  read_next-Intact r offset count now (some source) h =
      read_source-Intact r offset count now source h

  send_new-Intact :
      (r : Record P) (offset count now : ℕ)
      → Intact r
      → Intact (send_new lib disk r offset count now).0
  unfolding send_new fail terminal intact
  send_new-Intact r offset count now h =
      ground (arith, read_next-Intact r offset count now r.outgoing h)

  send_cached-Intact :
      (r : Record P) (offset count now : ℕ) (o : Option ProtoEvent)
      → Intact r
      → Intact (send_cached lib disk r offset count now o).0
  unfolding send_cached
  send_cached-Intact r offset count now none h = send_new-Intact r offset count now h
  send_cached-Intact r offset count now (some response) h = h

  send_chunk-Intact :
      (r : Record P) (offset count now : ℕ)
      → Intact r
      → Intact (send_chunk lib disk r offset count now).0
  unfolding send_chunk fail terminal intact
  send_chunk-Intact r offset count now h = ground (
    arith,
    send_new-Intact r offset count now h,
    send_cached-Intact r offset count now r.cached_response h,
  )

  prepared-Intact :
      (r : Record P) (directory : Bytes) (now : ℕ) (automatic : Bool) (t : Transfer Bytes)
      → Intact r
      → Intact (prepared lib disk r directory now automatic t).0
  unfolding prepared receive_into not_prepared terminal intact new_incoming
  prepared-Intact r directory now automatic (success made) h = refl
  prepared-Intact r directory now automatic (failure e) h = ground arith

  pub prepare_receiver-Intact :
      (r : Record P) (directory : Bytes) (now : ℕ) (automatic : Bool)
      → Intact r
      → Intact (prepare_receiver lib disk r directory now automatic).0
  unfolding prepare_receiver fail terminal intact
  prepare_receiver-Intact r directory now automatic h =
      let none_made : Transfer Bytes =
        failure (io (codes "destination must be an absolute directory") false) in
      ground (
        arith,
        prepared-Intact r directory now automatic disk.prepare h,
        prepared-Intact r directory now automatic none_made h,
      )

  overwrite_staged-Intact :
      (r : Record P) (directory : Bytes) (now : ℕ) (s : Staging)
      → Intact r
      → Intact (overwrite_staged lib disk r directory now s).0
  unfolding overwrite_staged redirected
  overwrite_staged-Intact r directory now (staged staging) h =
      let p = prepare_receiver-Intact r staging now false h in ground (arith, p)
  overwrite_staged-Intact r directory now (not_staged message) h = h

  pub overwrite_record-Intact :
      (r : Record P) (directory : Bytes) (now : ℕ)
      → Intact r
      → Intact (overwrite_record lib disk r directory now).0
  unfolding overwrite_record
  overwrite_record-Intact r directory now h =
      let refused = not_staged (codes "destination must be an absolute directory") in
      ground (
        arith,
        overwrite_staged-Intact r directory now disk.stage h,
        overwrite_staged-Intact r directory now refused h,
      )

  finished-Intact :
      (r : Record P) (now : ℕ) (t : Transfer IncomingFile) → Intact (finished lib disk r now t).0
  unfolding finished replace completed_record fail terminal intact
  finished-Intact r now (failure e) = refl
  finished-Intact r now (success file) = elim (Option-cases r.replacement) [
    | inl q ↦ rw (q) refl
    | inr (moved, q) ↦ elim (Option-cases disk.rename) [
      | inl n ↦ rw (q, n) refl
      | inr (e, n) ↦ rw (q, n) refl
    ]
  ]

  after_write-Intact :
      (r : Record P) (file : IncomingFile) (now : ℕ) (early : Option Bytes)
      → Intact r
      → Intact (after_write lib disk r file now early).0
  unfolding after_write finish_receiver
  after_write-Intact r file now none h = progress-Intact _ now _ h
  after_write-Intact r file now (some digest) h = finished-Intact _ now _

  written-Intact :
      (r : Record P) (offset now : ℕ) (bytes : Bytes) (before : IncomingFile)
      (t : Transfer IncomingFile)
      → write_file disk before offset bytes ≡ t
      → intact (some before) ≡ true
      → Intact (written lib disk r (offset + length bytes) now t).0
  unfolding written fail terminal intact
  written-Intact r offset now bytes before (failure e) w h = refl
  written-Intact r offset now bytes before (success after) w h =
      after_write-Intact _ after now _ (write_file-intact disk before after offset bytes h w)

  write_opened-Intact :
      (r : Record P) (offset : ℕ) (bytes : Bytes) (now : ℕ) (o : Option IncomingFile)
      → Intact r
      → r.incoming ≡ o
      → Intact (write_opened lib disk r offset bytes now o).0
  unfolding write_opened write_data fail terminal intact
  write_opened-Intact r offset bytes now none h q = h
  write_opened-Intact r offset bytes now (some before) h q =
      let b : intact (some before) ≡ true = subst (λ x. intact x ≡ true) q h in
      ground (
        arith,
        written-Intact r offset now bytes before (write_file disk before offset bytes) refl b,
      )

  write_chunk-Intact :
      (r : Record P) (offset : ℕ) (bytes : Bytes) (now : ℕ)
      → Intact r
      → Intact (write_chunk lib disk r offset bytes now).0
  unfolding write_chunk
  write_chunk-Intact r offset bytes now h =
      ground (arith, write_opened-Intact r offset bytes now r.incoming h refl)

  complete_opened-Intact :
      (r : Record P) (digest : Bytes) (now : ℕ) (o : Option IncomingFile)
      → Intact r
      → Intact (complete_opened lib disk r digest now o).0
  unfolding complete_opened finish_receiver fail terminal intact
  complete_opened-Intact r digest now none h = h
  complete_opened-Intact r digest now (some file) h =
      ground (arith, finished-Intact r now (finalize_file lib disk file r.size digest))

  complete_receiver-Intact :
      (r : Record P) (digest : Bytes) (now : ℕ)
      → Intact r
      → Intact (complete_receiver lib disk r digest now).0
  unfolding complete_receiver
  complete_receiver-Intact r digest now h =
      ground (arith, complete_opened-Intact r digest now r.incoming h)

  pub answer_offer-Intact :
      (r : Record P) (settings : FileReceiveSettings) (now : ℕ)
      → Intact r
      → Intact (answer_offer lib disk r settings now).0
  unfolding answer_offer
  answer_offer-Intact r settings now h =
      ground (arith, prepare_receiver-Intact r settings.download_directory now true h)

  pub handle-Intact :
      (r : Record P) (event : ProtoEvent) (now : ℕ)
      → Intact r
      → Intact (handle lib disk r event now).0
  unfolding handle
  handle-Intact r (ProtoEvent.manual_file_decision id d) now h = decision-Intact r d now h
  handle-Intact r (ProtoEvent.manual_file_request id offset count) now h =
      send_chunk-Intact r offset count now h
  handle-Intact r (ProtoEvent.manual_file_chunk id offset bytes) now h =
      write_chunk-Intact r offset bytes now h
  handle-Intact r (ProtoEvent.manual_file_complete id sha256) now h =
      complete_receiver-Intact r sha256 now h
  handle-Intact r (ProtoEvent.manual_file_result id succeeded error) now h =
      receive_result-Intact r succeeded error now h
  handle-Intact r (ProtoEvent.manual_file_cancel id) now h = cancelled_by_peer-Intact r now h
  handle-Intact r event now h = h
