-- ===== src/HistorySync/Discard.antt =====
-- What `finish_request`, `peer_lost` and `expire` of crates/syntra-core/src/history_sync.rs discard.
use syntra.Prelude.{
  ℕ, ◌+◌, ◌≡◌, ◌∙◌, refl, ap, Bool, true, false, not, ◌||◌, ◌&&◌, ◌==◌, none, [], ◌∷◌, arith,
  length, Bool-cases, inl, inr, if◌then◌else◌,
}
use syntra.Prelude.Equality.{Equality, equals}
use syntra.HistorySync.Reassembler.{
  Key, Records, Reassembler, same, find, peer_lost, finish_request,
}
use syntra.HistorySync.Records.{total, same_sound}
use syntra.HistorySync.Retain.{filter, retain-records, retain-count, retain-budget}
use syntra.HistorySync.Invariant.{IsValid}

module _ {P : Type 0} ⦃e : Equality P⦄ where
  -- A test of the key alone keeps or drops what a key maps to.
  find-filter :
      (keep : Key P → Bool) (rs : Records P) (k : Key P)
      → find (filter (λ entry. keep entry.0) rs) k ≡ (if keep k then find rs k else none)
  unfolding find filter
  find-filter keep [] k = elim (Bool-cases (keep k)) [ inl t ↦ rw (t) refl | inr f ↦ rw (f) refl ]
  find-filter keep ((x, p) ∷ rs) k = elim (Bool-cases (same x k)) [
    | inl t ↦
        let q : keep x ≡ keep k = ap keep (same_sound x k t) in
        elim (Bool-cases (keep k)) [
          | inl u ↦ rw (q, u, t) refl
          | inr u ↦ rw (q, u) (find-filter keep rs k ∙ rw (u) refl)
        ]
    | inr f ↦ elim (Bool-cases (keep x)) [
      | inl u ↦ rw (u, f) (find-filter keep rs k)
      | inr u ↦ rw (u, f) (find-filter keep rs k)
    ]
  ]

  abbrev is_of_request : P → ℕ → Key P → Bool
  is_of_request peer r k = equals k.0 peer && k.1 == r

  -- The end of a request discards the records of that peer and request and no others, counts them, and
  -- returns their bytes to the budget.
  pub finish_request_lem :
      (s : Reassembler P) (peer : P) (r : ℕ) (k : Key P)
      → IsValid s
      → let ended = finish_request s peer r in
        (find ended.0.records k ≡ (if is_of_request peer r k then none else find s.records k))
        × (ended.1 + length ended.0.records ≡ length s.records)
        × (ended.0.pending_bytes ≡ total ended.0.records)
  unfolding finish_request
  finish_request_lem s peer r k v =
      let keep : Key P → Bool = λ x. not (equals x.0 peer) || not (x.1 == r) in
      let records = retain-records (λ entry. keep entry.0) s.records s.pending_bytes in
      let budget =
        retain-budget (λ entry. keep entry.0) s.records s.pending_bytes 0
          (omega (arith, v.budget)) in
      (
        rw (records) (find-filter keep s.records k ∙ negated (equals k.0 peer) (k.1 == r)),
        rw (records) (retain-count (λ entry. keep entry.0) s.records s.pending_bytes),
        rw (records) (omega (arith, budget)),
      )
    where
      negated :
          (a b : Bool)
          → (if not a || not b then find s.records k else none)
            ≡ (if a && b then none else find s.records k)
      negated true true = refl
      negated true false = refl
      negated false b = refl

  -- The loss of a peer discards its records and no others, and returns their bytes to the budget.
  pub peer_lost_lem :
      (s : Reassembler P) (peer : P) (k : Key P)
      → IsValid s
      → let left = peer_lost s peer in
        (find left.records k ≡ (if equals k.0 peer then none else find s.records k))
        × (left.pending_bytes ≡ total left.records)
  unfolding peer_lost
  peer_lost_lem s peer k v =
      let keep : Key P → Bool = λ x. not (equals x.0 peer) in
      let records = retain-records (λ entry. keep entry.0) s.records s.pending_bytes in
      let budget =
        retain-budget (λ entry. keep entry.0) s.records s.pending_bytes 0
          (omega (arith, v.budget)) in
      (
        rw (records) (find-filter keep s.records k ∙ negated (equals k.0 peer)),
        rw (records) (omega (arith, budget)),
      )
    where
      negated :
          (a : Bool)
          → (if not a then find s.records k else none) ≡ (if a then none else find s.records k)
      negated true = refl
      negated false = refl
