-- ===== src/HistorySync/Runs.antt =====
-- `Reassembler` of crates/syntra-core/src/history_sync.rs under any calls, in any order.
use syntra.Prelude.{
  ℕ, ◌≡◌, refl, Bool, not, Option, none, some, List, [], ◌∷◌, arith, length, leb, ◌==◌, bytes_eq,
  get_elem?, Bool-cases, inl, inr,
}
use syntra.Prelude.Equality.{Equality}
use syntra.Proto.Error.{Bytes}
use syntra.HistorySync.Reassembler.{
  Key, PendingRecord, Reassembler, empty, find, start, fill, chunk_of, chunk_at, chunk, retain,
  peer_lost, finish_request, expire, expected_len,
}
use syntra.HistorySync.Slots.{get_elem?-lt}
use syntra.HistorySync.Records.{total}
use syntra.HistorySync.Retain.{
  filter, retain-records, retain-count, retain-budget, total-filter, filter-IsUnique, filter-All,
}
use syntra.HistorySync.Invariant.{
  IsPending, IsValid, empty-IsValid, start-IsValid, release-IsValid, store-Returned, Returned,
}

-- The calls on a reassembler.
pub data Call (P : Type 0) : Type 0 where
  start_record : P → (request_id record_id total_len chunks now : ℕ) → Call P
  add_chunk : P → (request_id record_id index : ℕ) → Bytes → Call P
  lose_peer : P → Call P
  end_request : P → (request_id : ℕ) → Call P
  expire_at : (now : ℕ) → Call P

module _ {P : Type 0} ⦃e : Equality P⦄ where
  retain-IsValid :
      (keep : Key P × PendingRecord → Bool) (s : Reassembler P)
      → IsValid s
      → IsValid (retain keep s.records s.pending_bytes).0
  retain-IsValid keep s v =
      let records : (retain keep s.records s.pending_bytes).0.records ≡ filter keep s.records =
        retain-records keep s.records s.pending_bytes in
      let budget : (retain keep s.records s.pending_bytes).0.pending_bytes
          ≡ total (filter keep s.records) =
        omega (arith, retain-budget keep s.records s.pending_bytes 0 (omega (arith, v.budget))) in
      record {
        budget = rw (records) budget;
        limit = omega (arith, budget, v.budget, v.limit, total-filter keep s.records);
        count = rw (records) (omega (arith, retain-count keep s.records s.pending_bytes, v.count));
        unique = rw (records) (filter-IsUnique keep s.records v.unique);
        pending = rw (records) (filter-All keep IsPending s.records v.pending);
      }

  module _ {Event : Type 0} (deserialize : Bytes → Option Event) where
    fill-Returned :
        (s : Reassembler P) (k : Key P) (p : PendingRecord) (index : ℕ) (bytes : Bytes)
        (slot : Option Bytes)
        → IsValid s
        → find s.records k ≡ some p
        → get_elem? p.chunks index ≡ some slot
        → Returned (fill deserialize s k p index bytes (some slot))
    unfolding fill
    fill-Returned s k p index bytes none v h g = store-Returned deserialize s k p index bytes v h g
    fill-Returned s k p index bytes (some previous) v h g =
        elim (Bool-cases (bytes_eq previous bytes)) [ inl t ↦ rw (t) v | inr f ↦ rw (f) v ]

    chunk_at-Returned :
        (s : Reassembler P) (k : Key P) (index : ℕ) (bytes : Bytes) (o : Option PendingRecord)
        → IsValid s
        → find s.records k ≡ o
        → Returned (chunk_at deserialize s k index bytes o)
    unfolding chunk_at chunk_of
    chunk_at-Returned s k index bytes none v h = v
    chunk_at-Returned s k index bytes (some p) v h =
        elim (Bool-cases (leb (length p.chunks) index)) [
          | inl t ↦ rw (t) v
          | inr f ↦ elim (Bool-cases (not (length bytes == expected_len p index))) [
            | inl t ↦ rw (f, t) (release-IsValid s k p v h)
            | inr g ↦
                let (slot, q) = get_elem?-lt p.chunks index (ground arith) in
                rw (f, g, q) (fill-Returned s k p index bytes slot v h q)
          ]
        ]

    -- The state after a call; `none` is a panic.
    abbrev state : {R : Type 0} → Option (Reassembler P × R) → Option (Reassembler P)
    state none = none
    state (some (s, r)) = some s

    unfoldable pub step : Reassembler P → Call P → Option (Reassembler P)
    step s (start_record peer r i n c now) = some (start s peer r i n c now).0
    step s (add_chunk peer r i x bytes) = state (chunk deserialize s peer r i x bytes)
    step s (lose_peer peer) = some (peer_lost s peer)
    step s (end_request peer r) = some (finish_request s peer r).0
    step s (expire_at now) = some (expire s now).0

    state-Returned :
        {R : Type 0} (o : Option (Reassembler P × R))
        → Returned o
        → (s : Reassembler P) × (state o ≡ some s) × IsValid s
    state-Returned none h = absurd h
    state-Returned (some (s, r)) h = (s, refl, h)

    step-IsValid :
        (s : Reassembler P) (call : Call P)
        → IsValid s
        → (t : Reassembler P) × (step s call ≡ some t) × IsValid t
    unfolding step chunk peer_lost finish_request expire
    step-IsValid s (start_record peer r i n c now) v = (_, refl, start-IsValid s peer r i n c now v)
    step-IsValid s (add_chunk peer r i x bytes) v =
        state-Returned _ (chunk_at-Returned s (peer, r, i) x bytes _ v refl)
    step-IsValid s (lose_peer peer) v = (_, refl, retain-IsValid _ s v)
    step-IsValid s (end_request peer r) v = (_, refl, retain-IsValid _ s v)
    step-IsValid s (expire_at now) v = (_, refl, retain-IsValid _ s v)

    unfoldable pub run_after : Option (Reassembler P) → List (Call P) → Option (Reassembler P)
    run_after s [] = s
    run_after none (call ∷ calls) = none
    run_after (some s) (call ∷ calls) = run_after (step s call) calls

    run_after-IsValid :
        (s : Reassembler P) (calls : List (Call P))
        → IsValid s
        → (t : Reassembler P) × (run_after (some s) calls ≡ some t) × IsValid t
    unfolding run_after
    run_after-IsValid s [] v = (s, refl, v)
    run_after-IsValid s (call ∷ calls) v =
        let (t, h, w) = step-IsValid s call v in rw (h) (run_after-IsValid t calls w)

    -- From an empty reassembler, no calls in any order make it panic, whatever peers send; and the
    -- state they lead to is valid: at most 8 records wait, together for at most 48 MiB, the budget is
    -- the sum of their lengths, each has as many slots as its length needs, and each counts its filled
    -- slots and has an empty one.
    pub run-IsValid :
        (calls : List (Call P))
        → (t : Reassembler P) × (run_after (some empty) calls ≡ some t) × IsValid t
    run-IsValid calls = run_after-IsValid empty calls empty-IsValid
