-- ===== src/HistorySync/Examples.antt =====
-- Synchronisation of history in crates/syntra-core/src/history_sync.rs on concrete records.
use syntra.Prelude.{
  ℕ, ◌+◌, ◌≤◌, ◌<◌, ◌≡◌, refl, true, false, ◌==◌, Option, none, some, List, [], ◌∷◌, arith, length,
  codes, max, All,
}
use syntra.Prelude.Equality.{Equality}
use syntra.Proto.Error.{Bytes}
use syntra.Proto.Event.{ProtoEvent}
use syntra.Proto.Limits.{div_ceil}
use syntra.HistorySync.Reassembler.{
  Reassembler, Outcome, done, empty, find, start, finish_request, peer_lost,
}
use syntra.HistorySync.Records.{total}
use syntra.HistorySync.Invariant.{IsValid, empty-IsValid, start-IsValid}
use syntra.HistorySync.Runs.Call.{start_record, add_chunk}
use syntra.HistorySync.Runs.{Call, run_after, run-IsValid}
use syntra.HistorySync.Awaits.{occurs}
use syntra.HistorySync.Delivery.{deliver}
use syntra.HistorySync.Sending.{record_events, events_of, chunk_events, pieces_of, pieces_within}
use syntra.HistorySync.Exchange.{record_delivered}
use syntra.HistorySync.Clear.{ClearCoordinator, lookup, union_boundary, add_boundary, new}
use syntra.HistorySync.Clear as Clear
use syntra.HistorySync.Boundaries.{
  reach, furthest, lookup-union_boundary, IsUnique, add_boundary_order,
}
use syntra.HistorySync.Coordinator.{Answer, last_boundaries, last_acks, last-le-one}
use syntra.HistorySync.Discard.{finish_request_lem, peer_lost_lem}

eq_sound : (a b : ℕ) → (a == b) ≡ true → a ≡ b
eq_sound a b h = ground arith

eq_refl : (a : ℕ) → (a == a) ≡ true
eq_refl a = ground arith

-- Peers that are numbers.
instance unfoldable peers : Equality ℕ
peers = record { eq = λ a b. a == b; eq_sound = eq_sound; eq_refl = eq_refl }

-- A codec of records that are byte strings.
abbrev serialize : Bytes → Outcome Bytes
serialize bytes = done bytes

abbrev deserialize : Bytes → Option Bytes
deserialize bytes = some bytes

codec : (x b : Bytes) → serialize x ≡ done b → deserialize b ≡ some x
codec x b h = cc

abbrev hello : Bytes
hello = codes "hello"

abbrev hello_events : List ProtoEvent
hello_events =
    ProtoEvent.history_record_start 3 4 5 1 ∷ ProtoEvent.history_record_chunk 3 4 0 hello ∷ []

hello_sent : record_events serialize 3 4 hello ≡ done hello_events
unfolding record_events events_of chunk_events pieces_of pieces_within div_ceil
hello_sent = refl

hello_pieces : pieces_of hello ≡ hello ∷ []
unfolding pieces_of pieces_within
hello_pieces = refl

hello_range : All (λ index. index < length (pieces_of hello)) (0 ∷ 0 ∷ [])
hello_range = rw (hello_pieces) (omega arith, (omega arith, tt))

hello_covered : (index : ℕ) → index < length (pieces_of hello) → occurs index (0 ∷ 0 ∷ []) ≡ true
unfolding pieces_of pieces_within
hello_covered index h = ground arith

-- The one piece comes twice.
record_delivered_example :
    (hello_events
      ≡ ProtoEvent.history_record_start 3 4 5 (length (pieces_of hello))
        ∷ chunk_events 3 4 0 (pieces_of hello))
    × ((start {P = ℕ} empty 1 3 4 5 (length (pieces_of hello)) 0).1 ≡ done tt)
    × (deliver deserialize 1 3 4
          (pieces_of hello)
          (start {P = ℕ} empty 1 3 4 5 (length (pieces_of hello)) 0).0
          (0 ∷ 0 ∷ [])
        ≡ some (hello ∷ []))
unfolding empty find
record_delivered_example =
    record_delivered serialize deserialize codec empty 1 3 4 0 hello hello hello_events (0 ∷ 0 ∷ [])
      refl hello_sent empty-IsValid refl (omega arith) (omega arith) hello_range hello_covered

-- An announcement, a chunk of the wrong length, and the chunk again.
abbrev calls : List (Call ℕ)
calls = start_record 1 3 4 5 1 0 ∷ add_chunk 1 3 4 0 [] ∷ add_chunk 1 3 4 0 hello ∷ []

run-IsValid_example :
    (t : Reassembler ℕ) × (run_after deserialize (some empty) calls ≡ some t) × IsValid t
run-IsValid_example = run-IsValid deserialize calls

-- The reassembler that waits for "hello".
abbrev waiting : Reassembler ℕ
waiting = (start empty 1 3 4 5 1 0).0

waiting-IsValid : IsValid waiting
waiting-IsValid = start-IsValid empty 1 3 4 5 1 0 empty-IsValid

finish_request_lem_example :
    (find (finish_request waiting 1 3).0.records (1, 3, 4) ≡ none)
    × ((finish_request waiting 1 3).1 + length (finish_request waiting 1 3).0.records
        ≡ length waiting.records)
    × ((finish_request waiting 1 3).0.pending_bytes ≡ total (finish_request waiting 1 3).0.records)
unfolding peers
finish_request_lem_example = finish_request_lem waiting 1 3 (1, 3, 4) waiting-IsValid

peer_lost_lem_example :
    (find (peer_lost waiting 1).records (1, 3, 4) ≡ none)
    × ((peer_lost waiting 1).pending_bytes ≡ total (peer_lost waiting 1).records)
unfolding peers
peer_lost_lem_example = peer_lost_lem waiting 1 (1, 3, 4) waiting-IsValid

-- Two answers for a device.
lookup-union_boundary_example :
    reach (lookup (union_boundary ((hello, 2) ∷ []) ((hello, 4) ∷ [])) hello)
    ≡ max (reach (lookup ((hello, 2) ∷ []) hello)) (furthest ((hello, 4) ∷ []) hello)
lookup-union_boundary_example = lookup-union_boundary ((hello, 2) ∷ []) ((hello, 4) ∷ []) hello

abbrev clearing : ClearCoordinator ℕ
clearing = new [] (1 ∷ 2 ∷ []) ((hello, 2) ∷ []) 0

add_boundary_order_example :
    (lookup
        (add_boundary (add_boundary clearing 1 ((hello, 4) ∷ [])).0 2 ((hello, 3) ∷ [])).0.boundary
        hello
      ≡ lookup
          (add_boundary
            (add_boundary clearing 2 ((hello, 3) ∷ [])).0
            1
            ((hello, 4) ∷ [])).0.boundary
          hello)
    × (add_boundary (add_boundary clearing 1 ((hello, 4) ∷ [])).0 1 []
        ≡ ((add_boundary clearing 1 ((hello, 4) ∷ [])).0, false))
unfolding new peers IsUnique Clear.contains
add_boundary_order_example =
    add_boundary_order clearing 1 2 ((hello, 4) ∷ []) ((hello, 3) ∷ []) [] hello refl
      (refl, (refl, tt))

-- One peer answers twice, and the other is lost.
abbrev peer_answers : List (Answer ℕ)
peer_answers =
    Answer.boundary_of 1 ((hello, 4) ∷ []) ∷ Answer.boundary_of 1 [] ∷ Answer.loss_of 2 ∷ []

last-le-one_example :
    (last_boundaries clearing peer_answers ≤ 1) × (last_acks clearing peer_answers ≤ 1)
last-le-one_example = last-le-one clearing peer_answers
