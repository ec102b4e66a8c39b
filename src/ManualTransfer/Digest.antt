-- ===== src/ManualTransfer/Digest.antt =====
-- crates/syntra-core/src/manual_transfer.rs: a file is reported as received only with the digest that
-- came for it.
use syntra.Prelude.{
  ℕ, ◌+◌, ◌≡◌, refl, true, false, Option, none, some, List, [], ◌∷◌, arith, ◌==◌, length, inl, inr,
  Bool-cases, Option-cases, bytes_eq_sound,
}
use syntra.Proto.Error.{Bytes}
use syntra.Proto.Event.{ProtoEvent, ManualDecision}
use syntra.ManualTransfer.Files.{
  Disk, Library, Transfer, success, failure, IncomingFile, finalize_file, check, write_file,
}
use syntra.ManualTransfer.Record.{
  Record, completed, receiving, is_terminal, ManualAction, fail, request, send, terminal, progress,
}
use syntra.ManualTransfer.Receiver.{
  finish_receiver, finished, after_write, replace, written, write_data, write_opened, write_chunk,
  complete_opened, complete_receiver,
}
use syntra.ManualTransfer.Sender.{decision, decide, receiver_accepted, send_chunk, receive_result}
use syntra.ManualTransfer.Messages.{handle, cancelled_by_peer}
use syntra.ManualTransfer.Table.{RecordKey, ManualTransfers, find}
use syntra.ManualTransfer.Intact.{Intact, intact, write_file-intact}
use syntra.ManualTransfer.Calls.{Reachable}
use syntra.ManualTransfer.Everywhere.{find-Intact, reachable-Intact}

-- A received file: the bytes written are as many as were offered, and have the digest.
pub record Verified (lib : Library) (size : ℕ) (digest : Bytes) (file : IncomingFile) : Type 0 where
  pub whole : length file.written ≡ size
  pub digested : lib.sha256 file.written ≡ digest

intact-length :
    (file : IncomingFile) → intact (some file) ≡ true → length file.written ≡ file.offset
unfolding intact
intact-length file i = ground arith

finalize_file-Verified :
    (lib : Library) (disk : Disk) (file f : IncomingFile) (size : ℕ) (digest : Bytes)
    → intact (some file) ≡ true
    → finalize_file lib disk file size digest ≡ success f
    → Verified lib size digest file
unfolding finalize_file check intact
finalize_file-Verified lib disk file f size digest i h = elim (Option-cases disk.flush) [
  | inl n ↦ record {
    whole =
        let whole : file.offset ≡ size = ground arith in omega (arith, whole, intact-length file i);
    digested = bytes_eq_sound (lib.sha256 file.written) digest (ground arith);
  }
  | inr (e, q) ↦ absurd (ground arith)
]

-- Where the file has to take the place of another one, the move is made.
abbrev pub Moved : Disk → Option (Bytes × Bytes) → Type 0
Moved disk none = Unit
Moved disk (some staged) = disk.rename ≡ none

module _ {P : Type 0} (lib : Library) (disk : Disk) where
  replace-Moved :
      (r : Record P) (now : ℕ) (replacement : Option (Bytes × Bytes)) (error : Option Bytes)
      → disk.rename ≡ error
      → (replace lib r now replacement error).0.state ≡ completed
      → Moved disk replacement
  unfolding replace fail terminal
  replace-Moved r now none error q h = tt
  replace-Moved r now (some moved) none q h = q
  replace-Moved r now (some moved) (some e) q h = absurd cc

  finished-success :
      (r : Record P) (now : ℕ) (t : Transfer IncomingFile)
      → (finished lib disk r now t).0.state ≡ completed
      → (f : IncomingFile) × (t ≡ success f) × Moved disk r.replacement
  unfolding finished fail terminal
  finished-success r now (failure e) h = absurd cc
  finished-success r now (success f) h =
      (f, refl, replace-Moved _ now r.replacement disk.rename refl h)

  finish_receiver-Verified :
      (r : Record P) (incoming : IncomingFile) (digest : Bytes) (now : ℕ)
      → intact (some incoming) ≡ true
      → (finish_receiver lib disk r incoming digest now).0.state ≡ completed
      → Verified lib r.size digest incoming × Moved disk r.replacement
  unfolding finish_receiver
  finish_receiver-Verified r incoming digest now i h =
      let (f, q, m) = finished-success r now (finalize_file lib disk incoming r.size digest) h in
      (finalize_file-Verified lib disk incoming f r.size digest i q, m)

  -- How a record comes to be completed by a message.
  pub data Received (r : Record P) : ProtoEvent → Type 0 where
    by_digest :
        {id : ℕ} {digest : Bytes} (file : IncomingFile)
        → r.incoming ≡ some file
        → Verified lib r.size digest file
        → Moved disk r.replacement
        → Received r (ProtoEvent.manual_file_complete id digest)
    by_data :
        {id offset : ℕ} {bytes digest : Bytes} (before after : IncomingFile)
        → r.incoming ≡ some before
        → write_file disk before offset bytes ≡ success after
        → r.early_digest ≡ some digest
        → Verified lib r.size digest after
        → Moved disk r.replacement
        → Received r (ProtoEvent.manual_file_chunk id offset bytes)

  complete_opened-Received :
      (r : Record P) (id : ℕ) (digest : Bytes) (now : ℕ) (o : Option IncomingFile)
      → r.incoming ≡ o
      → intact o ≡ true
      → is_terminal r.state ≡ false
      → (complete_opened lib disk r digest now o).0.state ≡ completed
      → Received r (ProtoEvent.manual_file_complete id digest)
  unfolding complete_opened fail terminal
  complete_opened-Received r id digest now none q i alive h = absurd (ground arith)
  complete_opened-Received r id digest now (some file) q i alive h =
      elim (Bool-cases (r.transferred == r.size)) [
        | inl t ↦
            let (v, m) = finish_receiver-Verified r file digest now i (ground arith) in
            by_digest file q v m
        | inr f ↦ absurd (ground arith)
      ]

  progress-state :
      (r : Record P) (now : ℕ) (actions : List (ManualAction P))
      → (progress r now actions).0.state ≡ r.state
  unfolding progress
  progress-state r now actions = ground arith

  after_write-early :
      (r : Record P) (file : IncomingFile) (now : ℕ) (early : Option Bytes)
      → intact (some file) ≡ true
      → is_terminal r.state ≡ false
      → (after_write lib disk r file now early).0.state ≡ completed
      → (digest : Bytes) × (early ≡ some digest)
        × Verified lib r.size digest file
        × Moved disk r.replacement
  unfolding after_write
  after_write-early r file now none i alive h =
      let pull = request r.id r.transferred in
      let same = progress-state (record r { retry_event = some pull }) now (send r pull ∷ []) in
      absurd (ground (arith, same))
  after_write-early r file now (some digest) i alive h =
      let (v, m) =
        finish_receiver-Verified (record r { early_digest = none }) file digest now i h in
      (digest, refl, v, m)

  written-Received :
      (r : Record P) (id offset now : ℕ) (bytes : Bytes) (before : IncomingFile)
      (t : Transfer IncomingFile)
      → write_file disk before offset bytes ≡ t
      → r.incoming ≡ some before
      → intact (some before) ≡ true
      → is_terminal r.state ≡ false
      → (written lib disk r (offset + length bytes) now t).0.state ≡ completed
      → Received r (ProtoEvent.manual_file_chunk id offset bytes)
  unfolding written fail terminal
  written-Received r id offset now bytes before (failure e) w q i alive h = absurd cc
  written-Received r id offset now bytes before (success after) w q i alive h =
      let j = write_file-intact disk before after offset bytes i w in
      let (digest, early, v, m) = after_write-early _ after now _ j alive h in
      by_data before after q w (ground arith) v m

  write_opened-Received :
      (r : Record P) (id offset : ℕ) (bytes : Bytes) (now : ℕ) (o : Option IncomingFile)
      → r.incoming ≡ o
      → intact o ≡ true
      → is_terminal r.state ≡ false
      → (write_opened lib disk r offset bytes now o).0.state ≡ completed
      → Received r (ProtoEvent.manual_file_chunk id offset bytes)
  unfolding write_opened write_data fail terminal
  write_opened-Received r id offset bytes now none q i alive h = absurd (ground arith)
  write_opened-Received r id offset bytes now (some before) q i alive h =
      written-Received r id offset now bytes before (write_file disk before offset bytes) refl q i
        alive (ground arith)

  receiving_no_decision :
      (r : Record P) (d : ManualDecision) (now : ℕ)
      → r.direction ≡ receiving
      → (decision r d now).0.state ≡ r.state
  unfolding decision decide receiver_accepted
  receiving_no_decision r ManualDecision.pending now way = rw (way) (ground arith)
  receiving_no_decision r ManualDecision.accepted now way = rw (way) (ground arith)
  receiving_no_decision r ManualDecision.declined now way = rw (way) (ground arith)

  completes-Received :
      (r : Record P) (event : ProtoEvent) (now : ℕ)
      → Intact r
      → r.direction ≡ receiving
      → is_terminal r.state ≡ false
      → (handle lib disk r event now).0.state ≡ completed
      → Received r event
  unfolding handle send_chunk receive_result write_chunk complete_receiver cancelled_by_peer fail
      terminal
  completes-Received r (ProtoEvent.manual_file_decision id d) now i way alive h =
      let same = receiving_no_decision r d now way in absurd (ground arith)
  completes-Received r (ProtoEvent.manual_file_request id offset count) now i way alive h =
      absurd (ground arith)
  completes-Received r (ProtoEvent.manual_file_chunk id offset bytes) now i way alive h =
      write_opened-Received r id offset bytes now r.incoming refl i alive (ground arith)
  completes-Received r (ProtoEvent.manual_file_complete id sha256) now i way alive h =
      complete_opened-Received r id sha256 now r.incoming refl i alive (ground arith)
  completes-Received r (ProtoEvent.manual_file_result id succeeded error) now i way alive h =
      absurd (ground arith)
  completes-Received r (ProtoEvent.manual_file_cancel id) now i way alive h = absurd (ground arith)
  completes-Received r event now i way alive h = absurd (ground arith)

  -- In every table that calls make, a message completes a transfer that is received only if it brings the digest
  -- or the last data: then as many bytes were written as were offered, they have the digest that this message or
  -- an earlier one brought, and the file was moved in place if it replaces another one.
  pub handle-Received :
      (s : ManualTransfers P) (key : RecordKey) (r : Record P) (peer : P) (event : ProtoEvent)
      (now : ℕ)
      → Reachable lib s
      → find s.records key ≡ some r
      → r.direction ≡ receiving
      → is_terminal r.state ≡ false
      → (handle lib disk (record r { peer = peer }) event now).0.state ≡ completed
      → Received (record r { peer = peer }) event
  handle-Received s key r peer event now reach q way alive h =
      completes-Received (record r { peer = peer }) event now
        (find-Intact s.records key r q (reachable-Intact lib reach)) way alive h
