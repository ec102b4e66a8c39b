-- ===== src/ManualTransfer/Receives.antt =====
-- crates/syntra-core/src/manual_transfer.rs: how the receiver takes the pieces of a pull.
use syntra.Prelude.{
  ℕ, ◌+◌, ◌^◌, ◌<◌, ◌≡◌, refl, Bool, true, false, Option, none, some, [], ◌∷◌, arith, ltb, ◌==◌,
  if◌then◌else◌, length, is_empty, take, bytes_eq_refl, take_all,
}
use syntra.Proto.Error.{Bytes}
use syntra.Proto.Event.{ProtoEvent}
use syntra.Proto.Limits.{max_manual_file_chunk_size}
use syntra.ManualTransfer.Files.{
  Disk, Library, success, IncomingFile, write_file, finalize_file, check,
}
use syntra.ManualTransfer.Record.{
  Record, receiving, transferring, completed, is_terminal, is_transferring, is_receiving, send,
  request, terminal,
}
use syntra.ManualTransfer.Receiver.{
  completed_record, replace, finished, finish_receiver, after_write, written, write_data,
  write_opened, write_chunk, complete_opened, complete_receiver,
}
use syntra.ManualTransfer.Conversation.{sent}
use syntra.ManualTransfer.Sends.{piece, length-piece, take-piece, not_empty, progress_lem}

-- The file system takes the file without an error.
pub record Writes (disk : Disk) : Type 0 where
  pub writes : disk.write ≡ none
  pub flushes : disk.flush ≡ none
  pub renames : disk.rename ≡ none

unfoldable pub target_at : Bytes → ℕ → IncomingFile
target_at file k = record {
  expected = length file;
  offset = k;
  written = take k file;
  done = false;
}

-- The receiver has the bytes below the offset.
pub record ReceivesAt {P : Type 0} (file : Bytes) (k : ℕ) (r : Record P) : Type 0 where
  pub way : r.direction ≡ receiving
  pub running : r.state ≡ transferring
  pub whole : r.size ≡ length file
  pub reached : r.transferred ≡ k
  pub opened : r.incoming ≡ some (target_at file k)
  pub in_order : r.early_digest ≡ none

no_early : (b : Bool) (early : Option Bytes) → early ≡ none → (if b then early else none) ≡ none
no_early true early h = h
no_early false early h = refl

module _ {P : Type 0} (lib : Library) where
  replace_lem :
      (r : Record P) (now : ℕ) (replacement : Option (Bytes × Bytes))
      → replace lib r now replacement none ≡ completed_record lib r now
  unfolding replace
  replace_lem r now none = refl
  replace_lem r now (some staged) = refl

module _ (disk : Disk) (file : Bytes) (takes : Writes disk) where
  write_file_lem :
      (k : ℕ)
      → k < length file
      → length file < 2 ^ 64
      → write_file disk (target_at file k) k (piece file k)
        ≡ success (target_at file (k + length (piece file k)))
  unfolding write_file target_at check
  write_file_lem k h small =
      let l = length-piece file k in
      let some_bytes : is_empty (piece file k) ≡ false =
        not_empty (piece file k) (omega (arith, l)) in
      let short : ltb max_manual_file_chunk_size (length (piece file k)) ≡ false =
        ground (arith, l) in
      let here : (k == k) ≡ true = ground arith in
      let fits : ltb (k + length (piece file k)) (2 ^ 64) ≡ true = ground (arith, l) in
      let within : ltb (length file) (k + length (piece file k)) ≡ false = ground (arith, l) in
      rw (some_bytes, short, here, fits, within, takes.writes, take-piece file k) (rw (l) refl)

  finalize_file_lem :
      (lib : Library) (size : ℕ)
      → size ≡ length file
      → (finished : IncomingFile) × (finalize_file lib disk
            (target_at file (length file))
            size
            (lib.sha256 file)
          ≡ success finished)
  unfolding finalize_file target_at check
  finalize_file_lem lib size h =
      let given : (size == length file) ≡ true = ground arith in
      let same : (length file == length file) ≡ true = ground arith in
      rw
        (
          given,
          same,
          takes.flushes,
          take_all (length file) file (omega arith),
          bytes_eq_refl (lib.sha256 file),
        )
        ((_, refl))

module _ {P : Type 0} (lib : Library) (disk : Disk) (file : Bytes) (takes : Writes disk) where
  pub write_piece :
      (k : ℕ) (r : Record P) (now : ℕ)
      → k < length file
      → length file < 2 ^ 64
      → ReceivesAt file k r
      → ReceivesAt file (k + length (piece file k)) (write_chunk lib disk r k (piece file k) now).0
        × (sent (write_chunk lib disk r k (piece file k) now).1
            ≡ request r.id (k + length (piece file k)) ∷ [])
        × ((write_chunk lib disk r k (piece file k) now).0.id ≡ r.id)
  unfolding write_chunk write_opened write_data written after_write sent
  write_piece k r now h small a =
      let l = length-piece file k in
      let alive : is_terminal r.state ≡ false = rw (a.running) refl in
      let moving : is_transferring r.state ≡ true = rw (a.running) refl in
      let here : is_receiving r.direction ≡ true = rw (a.way) refl in
      let some_bytes : is_empty (piece file k) ≡ false =
        not_empty (piece file k) (omega (arith, l)) in
      let short : ltb max_manual_file_chunk_size (length (piece file k)) ≡ false =
        ground (arith, l) in
      let fits : ltb (k + length (piece file k)) (2 ^ 64) ≡ true = ground (arith, l) in
      let within : ltb r.size (k + length (piece file k)) ≡ false = ground (arith, l, a.whole) in
      let next : (k == r.transferred) ≡ true = ground (arith, a.reached) in
      let end = k + length (piece file k) in
      let pull = request r.id end in
      let grown : Record P = record r {
        incoming = some (target_at file end);
        transferred = end;
        last_activity = now;
        retries = 0;
        retry_event = some pull;
      } in
      let (time, (q, m)) = progress_lem grown now (send grown pull ∷ []) in
      rw
        (
          here,
          alive,
          a.opened,
          moving,
          fits,
          some_bytes,
          short,
          within,
          next,
          write_file_lem disk file takes k h small,
          no_early (end == r.size) r.early_digest a.in_order,
          q,
          m,
        )
        (
          record {
            way = a.way;
            running = a.running;
            whole = a.whole;
            reached = refl;
            opened = refl;
            in_order = a.in_order;
          },
          refl,
          refl,
        )

  pub receive_end :
      (r : Record P) (now : ℕ)
      → ReceivesAt file (length file) r
      → ((complete_receiver lib disk r (lib.sha256 file) now).0.state ≡ completed)
        × (sent (complete_receiver lib disk r (lib.sha256 file) now).1
            ≡ ProtoEvent.manual_file_result r.id true none ∷ [])
  unfolding complete_receiver complete_opened finish_receiver finished completed_record sent
      terminal
  receive_end r now a =
      let alive : is_terminal r.state ≡ false = rw (a.running) refl in
      let moving : is_transferring r.state ≡ true = rw (a.running) refl in
      let here : is_receiving r.direction ≡ true = rw (a.way) refl in
      let all : (r.transferred == r.size) ≡ true = ground (arith, a.reached, a.whole) in
      let (file_done, f) = finalize_file_lem disk file takes lib r.size a.whole in
      rw
        (
          here,
          alive,
          a.opened,
          moving,
          all,
          f,
          takes.renames,
          replace_lem lib (record r { incoming = some file_done }) now r.replacement,
        )
        ((refl, refl))
