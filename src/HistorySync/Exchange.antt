-- ===== src/HistorySync/Exchange.antt =====
-- A record of crates/syntra-core/src/history_sync.rs from `record_events` to `Reassembler::chunk`.
use syntra.Prelude.{
  ℕ, zero, suc, ◌+◌, ◌%◌, ◌^◌, ◌≤◌, ◌<◌, ◌≡◌, refl, sym, ap, subst, true, false, not, ◌||◌, Option,
  none, some, List, [], ◌∷◌, arith, length, ltb, leb, ◌==◌, get_elem?, All,
}
use syntra.Prelude.Equality.{Equality}
use syntra.Proto.Error.{Bytes}
use syntra.Proto.Event.{ProtoEvent}
use syntra.Proto.Limits.{div_ceil}
use syntra.HistorySync.Reassembler.{
  Key, Reassembler, Outcome, done, find, start_new, start_at, start, empty_slots,
}
use syntra.HistorySync.Slots.{filled-empty_slots}
use syntra.HistorySync.Records.{same_refl}
use syntra.HistorySync.Invariant.{IsValid, start-IsValid}
use syntra.HistorySync.Sending.{
  chunk_events, events_of, record_events, pieces_of, pieces_of-IsSplit, concat-pieces_of,
  IsSplit-Covers, Covers-div_ceil, empty_slots-Agrees,
}
use syntra.HistorySync.Awaits.{Awaits, occurs}
use syntra.HistorySync.Delivery.{deliver, delivers}

-- A slot of a fresh record is one of its slots.
slot_in_range :
    (slots : List (Option Bytes)) (index : ℕ) (slot : Option Bytes)
    → get_elem? slots index ≡ some slot
    → index < length slots
slot_in_range [] index slot h = cc
slot_in_range (x ∷ slots) zero slot h = omega arith
slot_in_range (x ∷ slots) (suc index) slot h = omega (arith, slot_in_range slots index slot h)

-- The state after `start` for a new record.
abbrev pub with_record : {P : Type 0} → Reassembler P → Key P → ℕ → ℕ → ℕ → Reassembler P
with_record s key total_len chunks now = record {
  records =
      (
        key,
        record { received = 0; total_len = total_len; chunks = empty_slots chunks; started = now },
      )
      ∷ s.records;
  pending_bytes = s.pending_bytes + total_len;
}

fresh-Awaits :
    (bytes : Bytes) (now : ℕ)
    → 0 < length bytes
    → length bytes ≤ 50331648
    → Awaits (pieces_of bytes) (record {
      received = 0;
      total_len = length bytes;
      chunks = empty_slots (length (pieces_of bytes));
      started = now;
    })
fresh-Awaits bytes now p l =
    let s = pieces_of-IsSplit bytes p in
    let (lo, hi) = IsSplit-Covers (length bytes) (pieces_of bytes) s in
    let (f, n) = filled-empty_slots (length (pieces_of bytes)) in
    record {
      pending = record {
        positive = p;
        limit = l;
        enough = omega (arith, lo, n);
        needed = omega (arith, hi, n);
        counted = sym f;
        incomplete = omega (arith, lo, f, n);
      };
      split = s;
      agrees = empty_slots-Agrees (pieces_of bytes);
    }

events_of-eq-done :
    (r i : ℕ) (bytes : Bytes) (events : List ProtoEvent)
    → events_of r i (done bytes) ≡ done events
    → (0 < length bytes)
      × (length bytes ≤ 50331648)
      × (events
          ≡ ProtoEvent.history_record_start r i (length bytes) (div_ceil (length bytes) 1179)
            ∷ chunk_events r i 0 (pieces_of bytes))
unfolding events_of
events_of-eq-done r i [] events h = cc
events_of-eq-done r i (b ∷ bytes) events h = ground arith

module _ {P : Type 0} ⦃e : Equality P⦄ where
  -- A record that is announced where there is room is taken in.
  start-accepts :
      (s : Reassembler P) (peer : P) (r i now : ℕ) (bytes : Bytes)
      → find s.records (peer, r, i) ≡ none
      → 0 < length bytes
      → length bytes ≤ 50331648
      → length s.records < 8
      → s.pending_bytes + length bytes ≤ 50331648
      → start s peer r i (length bytes) (length (pieces_of bytes)) now
        ≡ (with_record s (peer, r, i) (length bytes) (length (pieces_of bytes)) now, done tt)
  unfolding start start_at start_new
  start-accepts s peer r i now bytes h p l room budget =
      let (lo, hi) = IsSplit-Covers (length bytes) (pieces_of bytes) (pieces_of-IsSplit bytes p) in
      let n = Covers-div_ceil (length bytes) (length (pieces_of bytes)) (lo, hi) in
      let first : (length bytes == 0 || ltb 50331648 (length bytes)) ≡ false = ground arith in
      let second : not (length (pieces_of bytes) == div_ceil (length bytes) 1179 % 2 ^ 32) ≡ false =
        ground (arith, n, hi) in
      let third : (leb 8 (length s.records) || ltb 50331648 (s.pending_bytes + length bytes))
          ≡ false =
        ground arith in
      rw (first, second, h, third) refl

  find-with_record :
      (s : Reassembler P) (k : Key P) (total_len chunks now : ℕ)
      → find (with_record s k total_len chunks now).records k
        ≡ some (record {
          received = 0;
          total_len = total_len;
          chunks = empty_slots chunks;
          started = now;
        })
  unfolding find
  find-with_record s k total_len chunks now = rw (same_refl k) refl

  module _ {Event : Type 0} (serialize : Event → Outcome Bytes) (deserialize : Bytes → Option Event)
      (codec : (x : Event) (b : Bytes) → serialize x ≡ done b → deserialize b ≡ some x) where
    -- A record that `record_events` has split is announced by its first event, which a valid
    -- reassembler with room for it accepts under a key that it does not know yet. When the pieces come
    -- then, each of them at least once, in any order and however often, exactly one of the calls returns
    -- an event, which is the record that was sent, and none is refused. The codec is assumed to read
    -- back what it wrote.
    pub record_delivered :
        (s : Reassembler P) (peer : P) (r i now : ℕ) (x : Event) (bytes : Bytes)
        (events : List ProtoEvent) (order : List ℕ)
        → serialize x ≡ done bytes
        → record_events serialize r i x ≡ done events
        → IsValid s
        → find s.records (peer, r, i) ≡ none
        → length s.records < 8
        → s.pending_bytes + length bytes ≤ 50331648
        → All (λ index. index < length (pieces_of bytes)) order
        → ((index : ℕ) → index < length (pieces_of bytes) → occurs index order ≡ true)
        → let n = length (pieces_of bytes) in
          let start_event = ProtoEvent.history_record_start r i (length bytes) n in
          let announced = start s peer r i (length bytes) n now in
          (events ≡ start_event ∷ chunk_events r i 0 (pieces_of bytes))
          × (announced.1 ≡ done tt)
          × (deliver deserialize peer r i (pieces_of bytes) announced.0 order ≡ some (x ∷ []))
    unfolding record_events
    record_delivered s peer r i now x bytes events order written sent v fresh room budget range
          covers =
        let (p, l, q) = events_of-eq-done r i bytes events (rw written at sent) in
        let (lo, hi) =
          IsSplit-Covers (length bytes) (pieces_of bytes) (pieces_of-IsSplit bytes p) in
        let n = Covers-div_ceil (length bytes) (length (pieces_of bytes)) (lo, hi) in
        let accepted = start-accepts s peer r i now bytes fresh p l room budget in
        let valid = start-IsValid s peer r i (length bytes) (length (pieces_of bytes)) now v in
        (
          rw n at q,
          ap (λ z. z.1) accepted,
          rw (accepted) (
              delivers deserialize peer r i (pieces_of bytes) _ _ x order (rw accepted at valid)
                (find-with_record s (peer, r, i) (length bytes) (length (pieces_of bytes)) now)
                (fresh-Awaits bytes now p l) range
                (λ index g. covers index (
                  subst (λ m. index < m) (filled-empty_slots (length (pieces_of bytes))).1
                    (slot_in_range _ index none g)))
                (rw (concat-pieces_of bytes) (codec x bytes written))),
        )
