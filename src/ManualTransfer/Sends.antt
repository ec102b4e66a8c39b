-- ===== src/ManualTransfer/Sends.antt =====
-- crates/syntra-core/src/manual_transfer.rs: how the sender answers the requests of a pull.
use syntra.Prelude.{
  length-take, ℕ, ◌+◌, ◌-◌, ◌^◌, ◌≤◌, ◌<◌, ◌≡◌, refl, true, false, none, some, List, [], ◌∷◌, ◌++◌,
  arith, ltb, leb, ◌==◌, length, length-drop, take-add, is_empty, take, take_all, drop, min,
  Bool-cases, inl, inr, ◌⊎◌, append-nil, ◌∙◌, ◌||◌,
}
use syntra.Proto.Error.{Bytes}
use syntra.Proto.Event.{ProtoEvent}
use syntra.Proto.Limits.{max_manual_file_chunk_size}
use syntra.ManualTransfer.Files.{
  Disk, Library, success, OutgoingFile, open_offer, next_chunk_bounded, read_chunk, finalize_digest,
  check,
}
use syntra.ManualTransfer.Record.{
  Record, ManualAction, sending, transferring, is_terminal, is_transferring, is_sending, progress,
  notify, send,
}
use syntra.ManualTransfer.Sender.{
  is_cached, has_digest, respond, send_digest, send_data, read_source, read_opened, open_source,
  read_next, send_new, send_chunk,
}
use syntra.ManualTransfer.Conversation.{sent, sent-append}

-- The bytes that answer a request at an offset.
unfoldable pub piece : Bytes → ℕ → Bytes
piece file k = take (min (length file - k) max_manual_file_chunk_size) (drop k file)

-- The file system gives the file without an error.
pub record Reads (file : Bytes) (disk : Disk) : Type 0 where
  pub opens : disk.open_source ≡ none
  pub reads : (offset n : ℕ) → disk.read offset n ≡ success (take n (drop offset file))
  pub unchanged : disk.source ≡ none

unfoldable pub source_at : Bytes → ℕ → OutgoingFile
source_at file k = record { offset = k; size = length file; hashed = take k file }

-- The sender has answered the requests below the offset.
pub record SendsAt {P : Type 0} (file : Bytes) (k : ℕ) (s : Record P) : Type 0 where
  pub way : s.direction ≡ sending
  pub running : s.state ≡ transferring
  pub whole : s.size ≡ length file
  pub reached : s.transferred ≡ k
  pub opened :
      (s.outgoing ≡ some (source_at file k))
      ⊎ ((k ≡ 0) × ((s.outgoing ≡ none) × (s.offer ≡ some (length file))))
  pub fresh : is_cached s.cached_request k max_manual_file_chunk_size ≡ false

-- The sender has sent everything, the digest too.
pub record HasSent {P : Type 0} (s : Record P) : Type 0 where
  pub way : s.direction ≡ sending
  pub running : s.state ≡ transferring
  pub all : s.transferred ≡ s.size
  pub digested : has_digest s.final_digest ≡ true

pub length-piece :
    (file : Bytes) (k : ℕ)
    → length (piece file k) ≡ min (length file - k) max_manual_file_chunk_size
unfolding piece
length-piece file k = omega (
  arith,
  length-take (min (length file - k) max_manual_file_chunk_size) (drop k file),
  length-drop k file,
)

pub take-piece :
    (file : Bytes) (k : ℕ)
    → take k file ++ piece file k ≡ take (k + min (length file - k) max_manual_file_chunk_size) file
unfolding piece
take-piece file k = take-add k (min (length file - k) max_manual_file_chunk_size) file

pub not_empty : (bytes : Bytes) → 0 < length bytes → is_empty bytes ≡ false
not_empty [] h = absurd (omega arith)
not_empty (b ∷ bytes) h = refl

module _ {P : Type 0} where
  -- Reporting the progress sends nothing, and changes no more than the time of the last report.
  pub progress_lem :
      (r : Record P) (now : ℕ) (actions : List (ManualAction P))
      → (time : ℕ) × (((progress r now actions).0 ≡ record r { last_notification = time })
          × (sent (progress r now actions).1 ≡ sent actions))
  unfolding progress sent
  progress_lem r now actions =
      elim (Bool-cases (r.transferred == r.size || leb 100 (now - r.last_notification))) [
        | inl t ↦
            rw (t) ((now, (refl, sent-append actions (notify r ∷ []) ∙ append-nil (sent actions))))
        | inr f ↦ rw (f) ((r.last_notification, (refl, refl)))
      ]

module _ (disk : Disk) (file : Bytes) (reads : Reads file disk) (small : length file < 2 ^ 64) where
  next_chunk_lem :
      (k : ℕ)
      → k < length file
      → next_chunk_bounded disk (source_at file k) max_manual_file_chunk_size
        ≡ success (source_at file (k + length (piece file k)), some (k, piece file k))
  unfolding next_chunk_bounded read_chunk source_at piece
  next_chunk_lem k h =
      let more : (k == length file) ≡ false = ground arith in
      let n : ℕ = min (length file - k) max_manual_file_chunk_size in
      let l : length (piece file k) ≡ n = length-piece file k in
      let all_read : (length (piece file k) == n) ≡ true = ground (arith, l) in
      let fits : ltb (k + n) (2 ^ 64) ≡ true = ground (arith, l) in
      rw (more, reads.reads k n, all_read, fits) (rw (l, take-piece file k) refl)

module _ (lib : Library) (disk : Disk) (file : Bytes) (reads : Reads file disk) where
  finalize_digest_lem :
      finalize_digest lib disk (source_at file (length file)) ≡ success (lib.sha256 file)
  unfolding finalize_digest check source_at
  finalize_digest_lem =
      let same : (length file == length file) ≡ true = ground arith in
      rw (same, reads.unchanged, take_all (length file) file (omega arith)) refl

module _ {P : Type 0} (lib : Library) (disk : Disk) (file : Bytes) (reads : Reads file disk) where
  -- Opening the source, when it is not open, comes to the same.
  send_new_lem :
      (k : ℕ) (s : Record P) (now : ℕ)
      → SendsAt file k s
      → send_new lib disk s k max_manual_file_chunk_size now
        ≡ read_source lib disk s k max_manual_file_chunk_size now (source_at file k)
  unfolding send_new read_next open_source read_opened open_offer source_at
  send_new_lem k s now a =
      let below : ltb k s.transferred ≡ false = ground (arith, a.reached) in
      let here : (k == s.transferred) ≡ true = ground (arith, a.reached) in
      elim a.opened [
        | inl o ↦ rw (below, here, o) refl
        | inr (z, (c, o)) ↦ rw (below, here, c, o, reads.opens, z) refl
      ]

module _ {P : Type 0} (lib : Library) (disk : Disk) (file : Bytes) (reads : Reads file disk) where
  -- A request at the offset that was reached, which was not asked for before, reads the source.
  send_chunk_lem :
      (k : ℕ) (s : Record P) (now : ℕ)
      → k ≤ length file
      → SendsAt file k s
      → send_chunk lib disk s k max_manual_file_chunk_size now
        ≡ read_source lib disk s k max_manual_file_chunk_size now (source_at file k)
  unfolding send_chunk
  send_chunk_lem k s now h a =
      let within : ltb s.size k ≡ false = ground (arith, a.whole) in
      let alive : is_terminal s.state ≡ false = rw (a.running) refl in
      let moving : is_transferring s.state ≡ true = rw (a.running) refl in
      let here : is_sending s.direction ≡ true = rw (a.way) refl in
      rw (alive, here, moving, within, a.fresh) (send_new_lem lib disk file reads k s now a)

  pub send_piece :
      (k : ℕ) (s : Record P) (now : ℕ)
      → k < length file
      → length file < 2 ^ 64
      → SendsAt file k s
      → SendsAt file
          (k + length (piece file k))
          (send_chunk lib disk s k max_manual_file_chunk_size now).0
        × (sent (send_chunk lib disk s k max_manual_file_chunk_size now).1
            ≡ ProtoEvent.manual_file_chunk s.id k (piece file k) ∷ [])
        × ((send_chunk lib disk s k max_manual_file_chunk_size now).0.id ≡ s.id)
  unfolding read_source send_data respond sent is_cached
  send_piece k s now h small a =
      let more : (k == s.size) ≡ false = ground (arith, a.whole) in
      let same : (k == k) ≡ true = ground arith in
      let positive : 0 < length (piece file k) = omega (arith, length-piece file k) in
      let some_bytes : is_empty (piece file k) ≡ false = not_empty (piece file k) positive in
      let answered : Record P = record s {
        outgoing = some (source_at file (k + length (piece file k)));
        transferred = k + length (piece file k);
        cached_request = some (k, max_manual_file_chunk_size);
        cached_response = some (ProtoEvent.manual_file_chunk s.id k (piece file k));
        retry_event = none;
        last_activity = now;
        retries = 0;
      } in
      let (time, (q, m)) =
        progress_lem answered now
          (send answered (ProtoEvent.manual_file_chunk s.id k (piece file k)) ∷ []) in
      rw
        (
          send_chunk_lem k s now (omega arith) a,
          more,
          next_chunk_lem disk file reads small k h,
          same,
          some_bytes,
          q,
          m,
        )
        ((
          record {
            way = a.way;
            running = a.running;
            whole = a.whole;
            reached = refl;
            opened = inl refl;
            fresh = ground (arith, positive);
          },
          refl,
          refl,
        ))

  pub send_end :
      (s : Record P) (now : ℕ)
      → SendsAt file (length file) s
      → HasSent (send_chunk lib disk s (length file) max_manual_file_chunk_size now).0
        × (sent (send_chunk lib disk s (length file) max_manual_file_chunk_size now).1
            ≡ ProtoEvent.manual_file_complete s.id (lib.sha256 file) ∷ [])
        × ((send_chunk lib disk s (length file) max_manual_file_chunk_size now).0.id ≡ s.id)
  unfolding read_source send_digest respond sent
  send_end s now a =
      let all : (length file == s.size) ≡ true = ground (arith, a.whole) in
      let complete = ProtoEvent.manual_file_complete s.id (lib.sha256 file) in
      let answered : Record P = record s {
        outgoing = some (source_at file (length file));
        final_digest = some (lib.sha256 file);
        cached_request = some (length file, max_manual_file_chunk_size);
        cached_response = some complete;
        retry_event = some complete;
        last_activity = now;
        retries = 0;
      } in
      let (time, (q, m)) = progress_lem answered now (send answered complete ∷ []) in
      rw
        (
          send_chunk_lem (length file) s now (omega arith) a,
          all,
          finalize_digest_lem lib disk file reads,
          q,
          m,
        )
        (
          record {
            way = a.way;
            running = a.running;
            all = omega (arith, a.reached, a.whole);
            digested = refl;
          },
          refl,
          refl,
        )
