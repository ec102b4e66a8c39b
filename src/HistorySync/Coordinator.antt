-- ===== src/HistorySync/Coordinator.antt =====
-- `ClearCoordinator` of crates/syntra-core/src/history_sync.rs under any answers of the peers.
use syntra.Prelude.{
  ℕ, suc, ◌+◌, ◌≤◌, ◌≡◌, refl, Bool, true, false, not, Option, List, [], ◌∷◌, String, arith, length,
  is_empty,
}
use syntra.Prelude.Equality.{Equality}
use syntra.Proto.Event.{Boundary}
use syntra.HistorySync.Clear.{ClearCoordinator, contains, remove, add_boundary, add_ack, peer_lost}

-- What peers do during a clear.
pub data Answer (P : Type 0) : Type 0 where
  boundary_of : P → Boundary → Answer P
  ack_of : P → (affected : ℕ) → Option String → Answer P
  loss_of : P → Answer P

abbrev one_if : Bool → ℕ
one_if true = 1
one_if false = 0

module _ {P : Type 0} ⦃e : Equality P⦄ where
  unfoldable pub answer : ClearCoordinator P → Answer P → ClearCoordinator P × Bool
  answer c (boundary_of peer boundary) = add_boundary c peer boundary
  answer c (ack_of peer affected error) = add_ack c peer affected error
  answer c (loss_of peer) = (peer_lost c peer, false)

  -- How often a boundary, or an ack, was told to be the last one.
  abbrev last_boundary : Answer P → Bool → ℕ
  last_boundary (boundary_of peer boundary) last = one_if last
  last_boundary _ last = 0

  abbrev last_ack : Answer P → Bool → ℕ
  last_ack (ack_of peer affected error) last = one_if last
  last_ack _ last = 0

  unfoldable pub last_boundaries : ClearCoordinator P → List (Answer P) → ℕ
  last_boundaries c [] = 0
  last_boundaries c (a ∷ answers) =
      last_boundary a (answer c a).1 + last_boundaries (answer c a).0 answers

  unfoldable pub last_acks : ClearCoordinator P → List (Answer P) → ℕ
  last_acks c [] = 0
  last_acks c (a ∷ answers) = last_ack a (answer c a).1 + last_acks (answer c a).0 answers

  abbrev waits : List P → ℕ
  waits peers = one_if (not (is_empty peers))

  -- Taking a peer out of a set that has it.
  waits-remove :
      (peers : List P) (peer : P)
      → contains peers peer ≡ true
      → (waits peers ≡ 1) × (suc (length (remove peers peer)) ≡ length peers)
  unfolding contains remove
  waits-remove [] peer h = cc
  waits-remove (p ∷ peers) peer h = ground (arith, waits-remove peers peer)

  waits-one_if : (peers : List P) → one_if (is_empty peers) + waits peers ≡ 1
  waits-one_if [] = refl
  waits-one_if (p ∷ peers) = refl

  waits_le : (peers : List P) → waits peers ≤ 1
  waits_le [] = omega arith
  waits_le (p ∷ peers) = omega arith

  boundary_step :
      (c : ClearCoordinator P) (a : Answer P)
      → last_boundary a (answer c a).1 + waits (answer c a).0.awaiting_boundaries
        ≤ waits c.awaiting_boundaries
  unfolding answer add_boundary add_ack peer_lost
  boundary_step c (boundary_of peer boundary) = ground (
    arith,
    waits-remove c.awaiting_boundaries peer,
    waits-one_if (remove c.awaiting_boundaries peer),
  )
  boundary_step c (ack_of peer affected error) = ground arith
  boundary_step c (loss_of peer) =
      ground (
        arith,
        waits-remove c.awaiting_boundaries peer,
        waits_le (remove c.awaiting_boundaries peer),
      )

  ack_step :
      (c : ClearCoordinator P) (a : Answer P)
      → last_ack a (answer c a).1 + waits (answer c a).0.awaiting_acks ≤ waits c.awaiting_acks
  unfolding answer add_boundary add_ack peer_lost
  ack_step c (boundary_of peer boundary) = ground arith
  ack_step c (ack_of peer affected error) =
      ground (arith, waits-remove c.awaiting_acks peer, waits-one_if (remove c.awaiting_acks peer))
  ack_step c (loss_of peer) =
      ground (arith, waits-remove c.awaiting_acks peer, waits_le (remove c.awaiting_acks peer))

  last_boundaries_le :
      (c : ClearCoordinator P) (answers : List (Answer P))
      → last_boundaries c answers ≤ waits c.awaiting_boundaries
  unfolding last_boundaries
  last_boundaries_le c [] = omega arith
  last_boundaries_le c (a ∷ answers) =
      omega (arith, boundary_step c a, last_boundaries_le (answer c a).0 answers)

  last_acks_le :
      (c : ClearCoordinator P) (answers : List (Answer P))
      → last_acks c answers ≤ waits c.awaiting_acks
  unfolding last_acks
  last_acks_le c [] = omega arith
  last_acks_le c (a ∷ answers) = omega (arith, ack_step c a, last_acks_le (answer c a).0 answers)

  -- Whatever peers answer, in any order and however often, and whichever of them are lost, at most one
  -- boundary and at most one ack is told to be the last one, so that a phase of the clear ends at most once.
  pub last-le-one :
      (c : ClearCoordinator P) (answers : List (Answer P))
      → (last_boundaries c answers ≤ 1) × (last_acks c answers ≤ 1)
  last-le-one c answers = (
    omega (arith, last_boundaries_le c answers, waits_le c.awaiting_boundaries),
    omega (arith, last_acks_le c answers, waits_le c.awaiting_acks),
  )
