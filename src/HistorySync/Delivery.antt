-- ===== src/HistorySync/Delivery.antt =====
-- A record on its way through `Reassembler` of crates/syntra-core/src/history_sync.rs: its chunks may
-- come in any order, and more than once.
use syntra.Prelude.{
  ℕ, suc, ◌+◌, ◌%◌, ◌^◌, ◌<◌, ◌≡◌, refl, true, false, not, Option, none, some, List, [], ◌∷◌, arith,
  length, concat, leb, ◌==◌, bytes_eq_refl, get_elem?, All, Bool-cases, inl, inr,
}
use syntra.Prelude.Equality.{Equality}
use syntra.Proto.Error.{Bytes}
use syntra.HistorySync.Reassembler.{
  Key, PendingRecord, Reassembler, Outcome, refused, done, find, update, fill, store, finish,
  release, decoded, chunk_of, chunk_at, chunk, expected_len, gather,
}
use syntra.HistorySync.Slots.{filled, get_elem?-lt}
use syntra.HistorySync.Records.{find-update, find-remove}
use syntra.HistorySync.Invariant.{IsValid, update-IsValid}
use syntra.HistorySync.Pieces.{
  piece_at, length-piece_at, length-Agrees, slot-Agrees, set_slot-Agrees, gather-Agrees, empty_slot,
}
use syntra.HistorySync.Awaits.{
  Awaits, with_piece, received_after, with_piece-Awaits, Covered, Covered-again, Covered-with_piece,
}

module _ {P : Type 0} ⦃e : Equality P⦄ {Event : Type 0} (deserialize : Bytes → Option Event) where
  -- What came out of a call and of those after it; `none` if one of them is refused or panics.
  abbrev collect :
      Option (Reassembler P × Outcome (Option Event))
      → (Reassembler P → Option (List Event))
      → Option (List Event)
  collect none next = none
  collect (some (s, refused reason)) next = none
  collect (some (s, done none)) next = next s
  collect (some (s, done (some event))) next = elim (next s) [
    | none ↦ none
    | some events ↦ some (event ∷ events)
  ]

  module _ (peer : P) (request_id record_id : ℕ) (pieces : List Bytes) where
    -- The events that come out when the pieces come in the order.
    unfoldable pub deliver : Reassembler P → List ℕ → Option (List Event)
    deliver s [] = some []
    deliver s (index ∷ order) =
        collect (chunk deserialize s peer request_id record_id index (piece_at pieces index))
          (λ t. deliver t order)

    abbrev key : Key P
    key = (peer, request_id, record_id)

    -- Late pieces of a record that is done are passed over.
    deliver-none :
        (s : Reassembler P) (order : List ℕ) → find s.records key ≡ none → deliver s order ≡ some []
    unfolding deliver chunk chunk_at
    deliver-none s [] h = refl
    deliver-none s (index ∷ order) h = rw (h) (deliver-none s order h)

    -- A piece of the record is taken in, whichever it is.
    chunk-fill :
        (s : Reassembler P) (p : PendingRecord) (index : ℕ) (slot : Option Bytes)
        → find s.records key ≡ some p
        → Awaits pieces p
        → get_elem? p.chunks index ≡ some slot
        → index < length pieces
        → chunk deserialize s peer request_id record_id index (piece_at pieces index)
          ≡ fill deserialize s key p index (piece_at pieces index) (some slot)
    unfolding chunk chunk_at chunk_of expected_len
    chunk-fill s p index slot h a g l =
        let n : length p.chunks ≡ length pieces = length-Agrees pieces p.chunks a.agrees in
        let in_range : leb (length p.chunks) index ≡ false = ground (arith, n) in
        let right : not (length (piece_at pieces index) == expected_len p index) ≡ false =
          ground (arith, n, length-piece_at p.total_len pieces index a.split l) in
        rw (h, in_range, right, g) refl

    -- A piece that came before changes nothing.
    fill_again :
        (s : Reassembler P) (p : PendingRecord) (index : ℕ) (b : Bytes)
        → Awaits pieces p
        → get_elem? p.chunks index ≡ some (some b)
        → fill deserialize s key p index (piece_at pieces index) (some (some b))
          ≡ some (s, done none)
    unfolding fill
    fill_again s p index b a g =
        rw (slot-Agrees pieces p.chunks index b a.agrees g, bytes_eq_refl (piece_at pieces index))
          refl

    store_more :
        (s : Reassembler P) (p : PendingRecord) (index : ℕ)
        → Awaits pieces p
        → get_elem? p.chunks index ≡ some none
        → suc (filled p.chunks) < length p.chunks
        → store deserialize s key p index (piece_at pieces index)
          ≡ some
              (record s { records = update s.records key (with_piece pieces p index) }, done none)
    unfolding store
    store_more s p index a g l =
        let (r, f, n, small) = received_after pieces p index a.pending g in
        let more : not
              ((p.received + 1) % 2 ^ 32 == length (with_piece pieces p index).chunks % 2 ^ 32)
            ≡ true =
          ground (arith, r, f, n, small, l) in
        rw (more) refl

    store_last :
        (s : Reassembler P) (p : PendingRecord) (index : ℕ)
        → Awaits pieces p
        → get_elem? p.chunks index ≡ some none
        → suc (filled p.chunks) ≡ length p.chunks
        → store deserialize s key p index (piece_at pieces index)
          ≡ some (release s key p, decoded (deserialize (concat pieces)))
    unfolding store finish
    store_last s p index a g l =
        let (r, f, n, small) = received_after pieces p index a.pending g in
        let last : not
              ((p.received + 1) % 2 ^ 32 == length (with_piece pieces p index).chunks % 2 ^ 32)
            ≡ false =
          ground (arith, r, f, n, small, l) in
        let whole : gather (with_piece pieces p index).chunks ≡ some (concat pieces) =
          gather-Agrees pieces _ (set_slot-Agrees pieces p.chunks index a.agrees)
            (omega (arith, f, n, l)) in
        rw (last, whole) refl

    -- One piece, where the rest of the pieces does what it should.
    module _ (s : Reassembler P) (p : PendingRecord) (event : Event) (index : ℕ) (order : List ℕ)
        (v : IsValid s) (h : find s.records key ≡ some p) (a : Awaits pieces p)
        (l : index < length pieces) (c : Covered pieces p (index ∷ order))
        (d : deserialize (concat pieces) ≡ some event)
        (next : (t : Reassembler P) (q : PendingRecord)
          → IsValid t
          → find t.records key ≡ some q
          → Awaits pieces q
          → Covered pieces q order
          → deliver t order ≡ some (event ∷ [])) where
      delivers_last :
          get_elem? p.chunks index ≡ some none
          → suc (filled p.chunks) ≡ length p.chunks
          → deliver s (index ∷ order) ≡ some (event ∷ [])
      unfolding deliver fill decoded release
      delivers_last g n =
          rw
            (
              chunk-fill s p index none h a g l,
              store_last s p index a g n,
              d,
              deliver-none (release s key p) order (find-remove s.records key v.unique),
            )
            refl

      delivers_more :
          get_elem? p.chunks index ≡ some none
          → suc (filled p.chunks) < length p.chunks
          → deliver s (index ∷ order) ≡ some (event ∷ [])
      unfolding deliver fill
      delivers_more g n =
          let b = with_piece-Awaits pieces p index a g n in
          rw (chunk-fill s p index none h a g l, store_more s p index a g n)
            (next _ (with_piece pieces p index)
              (update-IsValid s key p (with_piece pieces p index) v h refl b.pending)
              (find-update s.records key p (with_piece pieces p index) h) b
              (Covered-with_piece pieces p index order c))

      delivers_slot :
          (slot : Option Bytes)
          → get_elem? p.chunks index ≡ some slot
          → deliver s (index ∷ order) ≡ some (event ∷ [])
      unfolding deliver
      delivers_slot (some b) g =
          rw (chunk-fill s p index (some b) h a g l, fill_again s p index b a g)
            (next s p v h a (Covered-again pieces p index b order c g))
      delivers_slot none g = elim (Bool-cases (suc (filled p.chunks) == length p.chunks)) [
        | inl t ↦ delivers_last g (ground arith)
        | inr f ↦ delivers_more g (ground (arith, a.pending.incomplete))
      ]

    pub delivers :
        (s : Reassembler P) (p : PendingRecord) (event : Event) (order : List ℕ)
        → IsValid s
        → find s.records key ≡ some p
        → Awaits pieces p
        → All (λ i. i < length pieces) order
        → Covered pieces p order
        → deserialize (concat pieces) ≡ some event
        → deliver s order ≡ some (event ∷ [])
    delivers s p event [] v h a r c d =
        let (i, g) = empty_slot p.chunks a.pending.incomplete in absurd (impossible (c i g))
      where
        impossible : false ≡ true → ⊥
        impossible k = cc
    delivers s p event (index ∷ order) v h a r c d =
        let (slot, g) =
          get_elem?-lt p.chunks index
            (omega (arith, r.0, length-Agrees pieces p.chunks a.agrees)) in
        delivers_slot s p event index order v h a r.0 c d
          (λ t q v' h' a' c'. delivers t q event order v' h' a' r.1 c' d) slot g
