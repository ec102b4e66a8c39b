-- ===== src/HistorySync/Reassembler.antt =====
-- crates/syntra-core/src/history_sync.rs: `Reassembler`, which puts the records of a peer's history
-- together from chunks that may come in any order and more than once.
use syntra.Prelude.{
  ℕ, zero, suc, ◌+◌, ◌-◌, ◌*◌, ◌%◌, ◌^◌, Bool, not, ◌&&◌, ◌||◌, Option, none, some, List, [], ◌∷◌,
  ◌++◌, String, ltb, leb, ◌==◌, if◌then◌else◌, length, get_elem?, bytes_eq,
}
use syntra.Prelude.Equality.{Equality, equals}
use syntra.Proto.Error.{Bytes}
use syntra.Proto.Limits.{max_history_chunk_size, max_history_record_size, div_ceil}

abbrev max_pending_records : ℕ
max_pending_records = 8

abbrev max_pending_bytes : ℕ
max_pending_bytes = max_history_record_size

-- `CLEAR_TIMEOUT`, in milliseconds, the unit of all times here.
abbrev pub clear_timeout : ℕ
clear_timeout = 5000

-- `Result<T, &'static str>`
pub data Outcome {ℓ} (T : Type ℓ) : Type ℓ where
  refused : String → Outcome T
  done : T → Outcome T

pub record PendingRecord : Type 0 where
  pub received : ℕ
  pub total_len : ℕ
  pub chunks : List (Option Bytes)
  pub started : ℕ

-- `(0..n).map(|_| None).collect()`
unfoldable pub empty_slots : ℕ → List (Option Bytes)
empty_slots zero = []
empty_slots (suc n) = none ∷ empty_slots n

-- `chunks[index] = Some(bytes)`
unfoldable pub set_slot : List (Option Bytes) → ℕ → Bytes → List (Option Bytes)
set_slot [] index bytes = []
set_slot (slot ∷ slots) zero bytes = some bytes ∷ slots
set_slot (slot ∷ slots) (suc index) bytes = slot ∷ set_slot slots index bytes

-- All slots put together; `none` stands for the panic of `expect` on an empty one.
unfoldable pub cons_slot : Option Bytes → Option Bytes → Option Bytes
cons_slot (some bytes) (some rest) = some (bytes ++ rest)
cons_slot slot rest = none

unfoldable pub gather : List (Option Bytes) → Option Bytes
unfolding cons_slot
gather [] = some []
gather (slot ∷ slots) = cons_slot slot (gather slots)

-- The length that a chunk must have: the last one carries what is left.
unfoldable pub expected_len : PendingRecord → ℕ → ℕ
expected_len pending index =
    if index + 1 == length pending.chunks
    then pending.total_len - max_history_chunk_size * (length pending.chunks - 1)
    else max_history_chunk_size

-- `HashMap<(P, u64, u64), PendingRecord>`: no key stands twice, and the order means nothing.
abbrev pub Key : Type 0 → Type 0
Key P = P × ℕ × ℕ

abbrev pub Records : Type 0 → Type 0
Records P = List (Key P × PendingRecord)

pub record Reassembler (P : Type 0) : Type 0 where
  pub records : Records P
  pub pending_bytes : ℕ

-- `Default::default()`
unfoldable pub empty : {P : Type 0} → Reassembler P
empty = record { records = []; pending_bytes = 0 }

-- `.map(Some).map_err(..)` of what the codec returns
unfoldable pub decoded : {Event : Type 0} → Option Event → Outcome (Option Event)
decoded none = refused "invalid serialized history record"
decoded (some event) = done (some event)

module _ {P : Type 0} ⦃e : Equality P⦄ where
  abbrev pub same : Key P → Key P → Bool
  same a b = equals a.0 b.0 && (a.1 == b.1 && a.2 == b.2)

  unfoldable pub find : Records P → Key P → Option PendingRecord
  find [] key = none
  find (entry ∷ entries) key = if same entry.0 key then some entry.1 else find entries key

  unfoldable pub remove : Records P → Key P → Records P
  remove [] key = []
  remove (entry ∷ entries) key = if same entry.0 key then entries else entry ∷ remove entries key

  -- The record that a key maps to is written anew in its place.
  unfoldable pub update : Records P → Key P → PendingRecord → Records P
  update [] key pending = []
  update (entry ∷ entries) key pending =
      if same entry.0 key then (entry.0, pending) ∷ entries else entry ∷ update entries key pending

  -- `start`, with the time at which it is called. `saturating_add` of two lengths that passed the
  -- check stays below the limit of a `usize`.
  unfoldable pub start_new : Reassembler P → Key P → ℕ → ℕ → ℕ → Reassembler P × Outcome (Unit {0})
  start_new s key total_len chunks now =
      if leb max_pending_records (length s.records)
        || ltb max_pending_bytes (s.pending_bytes + total_len)
      then (s, refused "history record exceeds pending limits")
      else (
        record {
          records =
              (
                key,
                record {
                  received = 0;
                  total_len = total_len;
                  chunks = empty_slots chunks;
                  started = now;
                },
              )
              ∷ s.records;
          pending_bytes = s.pending_bytes + total_len;
        },
        done tt,
      )

  -- `start` with what the map has for the key.
  unfoldable pub start_at :
      Reassembler P → Key P → ℕ → ℕ → ℕ → Option PendingRecord → Reassembler P × Outcome (Unit {0})
  start_at s key total_len chunks now none = start_new s key total_len chunks now
  start_at s key total_len chunks now (some previous) =
      if previous.total_len == total_len && length previous.chunks == chunks
      then (s, done tt)
      else (s, refused "conflicting history record start")

  unfoldable pub start : Reassembler P → P → ℕ → ℕ → ℕ → ℕ → ℕ → Reassembler P × Outcome (Unit {0})
  start s peer request_id record_id total_len chunks now =
      let key : Key P = (peer, request_id, record_id) in
      if total_len == 0 || ltb max_history_record_size total_len
      then (s, refused "history record exceeds pending limits")
      else if not (chunks == div_ceil total_len max_history_chunk_size % 2 ^ 32)
      then (s, refused "invalid history record chunk count")
      else start_at s key total_len chunks now (find s.records key)

  -- The record leaves the map and its bytes leave the budget. `saturating_sub` is subtraction on ℕ.
  unfoldable pub release : Reassembler P → Key P → PendingRecord → Reassembler P
  release s key pending = record {
    records = remove s.records key;
    pending_bytes = s.pending_bytes - pending.total_len;
  }

  module _ {Event : Type 0} (deserialize : Bytes → Option Event) where
    -- The record whose last chunk has come. The whole is `none` where the code panics.
    unfoldable pub finish :
        Reassembler P → Option Bytes → Option (Reassembler P × Outcome (Option Event))
    finish s none = none
    finish s (some bytes) = some (s, decoded (deserialize bytes))

    -- A chunk for a free slot.
    unfoldable pub store :
        Reassembler P
        → Key P
        → PendingRecord
        → ℕ
        → Bytes
        → Option (Reassembler P × Outcome (Option Event))
    store s key pending index bytes =
        let received = (pending.received + 1) % 2 ^ 32 in
        let chunks = set_slot pending.chunks index bytes in
        if not (received == length chunks % 2 ^ 32)
        then some (
          record s {
            records =
                update s.records key (record pending { received = received; chunks = chunks });
          },
          done none,
        )
        else finish (release s key pending) (gather chunks)

    -- A chunk of the right length for a slot of the record.
    unfoldable pub fill :
        Reassembler P
        → Key P
        → PendingRecord
        → ℕ
        → Bytes
        → Option (Option Bytes)
        → Option (Reassembler P × Outcome (Option Event))
    fill s key pending index bytes (some (some previous)) =
        if bytes_eq previous bytes
        then some (s, done none)
        else some (s, refused "conflicting duplicate history record chunk")
    fill s key pending index bytes slot = store s key pending index bytes

    unfoldable pub chunk_of :
        Reassembler P
        → Key P
        → PendingRecord
        → ℕ
        → Bytes
        → Option (Reassembler P × Outcome (Option Event))
    chunk_of s key pending index bytes =
        if leb (length pending.chunks) index
        then some (s, refused "invalid history record chunk index")
        else if not (length bytes == expected_len pending index)
        then some (release s key pending, refused "invalid history record chunk length")
        else fill s key pending index bytes (get_elem? pending.chunks index)

    -- `chunk` with what the map has for the key.
    unfoldable pub chunk_at :
        Reassembler P
        → Key P
        → ℕ
        → Bytes
        → Option PendingRecord
        → Option (Reassembler P × Outcome (Option Event))
    chunk_at s key index bytes none = some (s, done none)
    chunk_at s key index bytes (some pending) = chunk_of s key pending index bytes

    unfoldable pub chunk :
        Reassembler P → P → ℕ → ℕ → ℕ → Bytes → Option (Reassembler P × Outcome (Option Event))
    chunk s peer request_id record_id index bytes =
        let key : Key P = (peer, request_id, record_id) in
        chunk_at s key index bytes (find s.records key)

  -- `retain`, with the bytes of what goes taken from the budget, and a count of it.
  unfoldable pub retain : (Key P × PendingRecord → Bool) → Records P → ℕ → Reassembler P × ℕ
  retain keep [] pending_bytes = (record { records = []; pending_bytes = pending_bytes }, 0)
  retain keep (entry ∷ entries) pending_bytes =
      let kept = retain keep entries pending_bytes in
      let gone = retain keep entries (pending_bytes - entry.1.total_len) in
      if keep entry
      then (record kept.0 { records = entry ∷ kept.0.records }, kept.1)
      else (gone.0, suc gone.1)

  abbrev is_of_peer : P → Key P × PendingRecord → Bool
  is_of_peer peer entry = equals entry.0.0 peer

  unfoldable pub peer_lost : Reassembler P → P → Reassembler P
  peer_lost s peer = (retain (λ entry. not (is_of_peer peer entry)) s.records s.pending_bytes).0

  unfoldable pub finish_request : Reassembler P → P → ℕ → Reassembler P × ℕ
  finish_request s peer request_id =
      retain (λ entry. not (is_of_peer peer entry) || not (entry.0.1 == request_id)) s.records
        s.pending_bytes

  -- `duration_since` is zero for a time that is still to come.
  unfoldable pub expire : Reassembler P → ℕ → Reassembler P × ℕ
  expire s now =
      retain (λ entry. ltb (now - entry.1.started) clear_timeout) s.records s.pending_bytes
