-- ===== src/HistorySync/Awaits.antt =====
-- A record of crates/syntra-core/src/history_sync.rs while its pieces come.
use syntra.Prelude.{
  ℕ, suc, ◌+◌, ◌%◌, ◌^◌, ◌<◌, ◌≡◌, sym, subst, Bool, true, none, some, List, ◌∷◌, arith, length,
  any, ◌==◌, get_elem?, Bool-cases, inl, inr,
}
use syntra.Proto.Error.{Bytes}
use syntra.HistorySync.Reassembler.{PendingRecord, set_slot}
use syntra.HistorySync.Slots.{filled, length-set_slot, filled-set_slot}
use syntra.HistorySync.Invariant.{IsPending}
use syntra.HistorySync.Pieces.{IsSplit, Agrees, piece_at, set_slot-Agrees, set_slot_other}

-- A record that the pieces belong to.
pub record Awaits (pieces : List Bytes) (p : PendingRecord) : Type 0 where
  pub pending : IsPending p
  pub split : IsSplit p.total_len pieces
  pub agrees : Agrees pieces p.chunks

-- Whether a piece is among those that come.
abbrev pub occurs : ℕ → List ℕ → Bool
occurs index order = any (λ i. i == index) order

module _ (pieces : List Bytes) where
  -- The record with one more piece.
  abbrev pub with_piece : PendingRecord → ℕ → PendingRecord
  with_piece p index = record p {
    received = (p.received + 1) % 2 ^ 32;
    chunks = set_slot p.chunks index (piece_at pieces index);
  }

  pub received_after :
      (p : PendingRecord) (index : ℕ)
      → IsPending p
      → get_elem? p.chunks index ≡ some none
      → ((p.received + 1) % 2 ^ 32 ≡ filled (with_piece p index).chunks)
        × (filled (with_piece p index).chunks ≡ suc (filled p.chunks))
        × (length (with_piece p index).chunks ≡ length p.chunks)
        × (length p.chunks < 2 ^ 32)
  received_after p index i g =
      let f = filled-set_slot p.chunks index (piece_at pieces index) g in
      let small : length p.chunks < 2 ^ 32 = omega (arith, i.needed, i.limit) in
      (
        omega (arith, i.counted, i.incomplete, small, f),
        f,
        length-set_slot p.chunks index (piece_at pieces index),
        small,
      )

  pub with_piece-Awaits :
      (p : PendingRecord) (index : ℕ)
      → Awaits pieces p
      → get_elem? p.chunks index ≡ some none
      → suc (filled p.chunks) < length p.chunks
      → Awaits pieces (with_piece p index)
  with_piece-Awaits p index a g l =
      let (r, f, n, small) = received_after p index a.pending g in
      record {
        pending = record {
          positive = a.pending.positive;
          limit = a.pending.limit;
          enough = rw (n) (a.pending.enough);
          needed = rw (n) (a.pending.needed);
          counted = r;
          incomplete = omega (arith, f, n, l);
        };
        split = a.split;
        agrees = set_slot-Agrees pieces p.chunks index a.agrees;
      }

  -- The pieces that are missing are still to come.
  abbrev pub Covered : PendingRecord → List ℕ → Type 0
  Covered p order = (index : ℕ) → get_elem? p.chunks index ≡ some none → occurs index order ≡ true

  pub Covered-again :
      (p : PendingRecord) (index : ℕ) (b : Bytes) (order : List ℕ)
      → Covered p (index ∷ order)
      → get_elem? p.chunks index ≡ some (some b)
      → Covered p order
  Covered-again p index b order c g other h = elim (Bool-cases (index == other)) [
    | inl t ↦ absurd (clash (subst (λ x. get_elem? p.chunks x ≡ some none) (sym (same_index t)) h))
    | inr f ↦ rw f at (c other h)
  ]
    where
      same_index : (index == other) ≡ true → index ≡ other
      same_index t = ground arith

      clash : get_elem? p.chunks index ≡ some none → ⊥
      clash k = cc

  pub Covered-with_piece :
      (p : PendingRecord) (index : ℕ) (order : List ℕ)
      → Covered p (index ∷ order)
      → Covered (with_piece p index) order
  Covered-with_piece p index order c other h =
      let (g, n) = set_slot_other p.chunks index other (piece_at pieces index) h in
      rw n at (c other g)
