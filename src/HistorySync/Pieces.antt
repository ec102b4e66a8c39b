-- ===== src/HistorySync/Pieces.antt =====
-- The pieces of a record of crates/syntra-core/src/history_sync.rs, and the slots that wait for them.
use syntra.Prelude.{
  ℕ, zero, suc, ◌+◌, ◌-◌, ◌*◌, ◌≤◌, ◌<◌, ◌≡◌, refl, ap, false, Option, none, some, List, [], ◌∷◌,
  arith, length, concat, ◌==◌, get_elem?, if◌then◌else◌,
}
use syntra.Proto.Error.{Bytes}
use syntra.HistorySync.Reassembler.{set_slot, gather}
use syntra.HistorySync.Slots.{filled, filled_le}

-- The pieces of a whole of so many bytes: all of 1179 bytes but the last, which is not empty.
unfoldable pub IsSplit : ℕ → List Bytes → Type 0
IsSplit total [] = ⊥
IsSplit total (piece ∷ []) = (length piece ≡ total) × (0 < total) × (total ≤ 1179)
IsSplit total (piece ∷ next ∷ pieces) =
    (length piece ≡ 1179) × (1179 < total) × IsSplit (total - 1179) (next ∷ pieces)

-- Each slot is empty or holds its piece.
unfoldable pub Agrees : List Bytes → List (Option Bytes) → Type 0
Agrees [] [] = Unit
Agrees [] (slot ∷ slots) = ⊥
Agrees (piece ∷ pieces) [] = ⊥
Agrees (piece ∷ pieces) (none ∷ slots) = Agrees pieces slots
Agrees (piece ∷ pieces) (some bytes ∷ slots) = (bytes ≡ piece) × Agrees pieces slots

unfoldable pub piece_at : List Bytes → ℕ → Bytes
piece_at [] index = []
piece_at (piece ∷ pieces) zero = piece
piece_at (piece ∷ pieces) (suc index) = piece_at pieces index

pub length-piece_at :
    (total : ℕ) (pieces : List Bytes) (index : ℕ)
    → IsSplit total pieces
    → index < length pieces
    → length (piece_at pieces index)
      ≡ (if index + 1 == length pieces then total - 1179 * (length pieces - 1) else 1179)
unfolding IsSplit piece_at
length-piece_at total [] index h l = absurd h
length-piece_at total (piece ∷ []) zero h l = ground (arith, h.0)
length-piece_at total (piece ∷ []) (suc index) h l = absurd (omega arith)
length-piece_at total (piece ∷ next ∷ pieces) zero h l = ground (arith, h.0)
length-piece_at total (piece ∷ next ∷ pieces) (suc index) h l =
    ground (arith, length-piece_at (total - 1179) (next ∷ pieces) index h.2 (omega arith))

pub length-Agrees :
    (pieces : List Bytes) (slots : List (Option Bytes))
    → Agrees pieces slots
    → length slots ≡ length pieces
unfolding Agrees
length-Agrees [] [] a = refl
length-Agrees [] (slot ∷ slots) a = absurd a
length-Agrees (piece ∷ pieces) [] a = absurd a
length-Agrees (piece ∷ pieces) (none ∷ slots) a = ap suc (length-Agrees pieces slots a)
length-Agrees (piece ∷ pieces) (some b ∷ slots) a = ap suc (length-Agrees pieces slots a.1)

pub slot-Agrees :
    (pieces : List Bytes) (slots : List (Option Bytes)) (index : ℕ) (b : Bytes)
    → Agrees pieces slots
    → get_elem? slots index ≡ some (some b)
    → b ≡ piece_at pieces index
unfolding Agrees piece_at
slot-Agrees [] [] index b a h = cc
slot-Agrees [] (slot ∷ slots) index b a h = absurd a
slot-Agrees (piece ∷ pieces) [] index b a h = absurd a
slot-Agrees (piece ∷ pieces) (none ∷ slots) zero b a h = cc
slot-Agrees (piece ∷ pieces) (none ∷ slots) (suc index) b a h = slot-Agrees pieces slots index b a h
slot-Agrees (piece ∷ pieces) (some c ∷ slots) zero b a h = ground (arith, a.0)
slot-Agrees (piece ∷ pieces) (some c ∷ slots) (suc index) b a h =
    slot-Agrees pieces slots index b a.1 h

pub set_slot-Agrees :
    (pieces : List Bytes) (slots : List (Option Bytes)) (index : ℕ)
    → Agrees pieces slots
    → Agrees pieces (set_slot slots index (piece_at pieces index))
unfolding Agrees piece_at set_slot
set_slot-Agrees [] [] index a = tt
set_slot-Agrees [] (slot ∷ slots) index a = absurd a
set_slot-Agrees (piece ∷ pieces) [] index a = absurd a
set_slot-Agrees (piece ∷ pieces) (none ∷ slots) zero a = (refl, a)
set_slot-Agrees (piece ∷ pieces) (none ∷ slots) (suc index) a = set_slot-Agrees pieces slots index a
set_slot-Agrees (piece ∷ pieces) (some c ∷ slots) zero a = (refl, a.1)
set_slot-Agrees (piece ∷ pieces) (some c ∷ slots) (suc index) a =
    (a.0, set_slot-Agrees pieces slots index a.1)

-- A full record is the whole that was split.
pub gather-Agrees :
    (pieces : List Bytes) (slots : List (Option Bytes))
    → Agrees pieces slots
    → filled slots ≡ length slots
    → gather slots ≡ some (concat pieces)
unfolding Agrees gather filled
gather-Agrees [] [] a h = refl
gather-Agrees [] (slot ∷ slots) a h = absurd a
gather-Agrees (piece ∷ pieces) [] a h = absurd a
gather-Agrees (piece ∷ pieces) (none ∷ slots) a h = absurd (omega (arith, filled_le slots))
gather-Agrees (piece ∷ pieces) (some c ∷ slots) a h =
    rw (a.0, gather-Agrees pieces slots a.1 (omega arith)) refl

-- A record that is not full has an empty slot.
pub empty_slot :
    (slots : List (Option Bytes))
    → filled slots < length slots
    → (index : ℕ) × (get_elem? slots index ≡ some none)
unfolding filled
empty_slot [] h = absurd (omega arith)
empty_slot (none ∷ slots) h = (0, refl)
empty_slot (some b ∷ slots) h = let (i, e') = empty_slot slots (omega arith) in (suc i, e')

-- A slot that is empty after another one was set was empty before, and is another one.
pub set_slot_other :
    (slots : List (Option Bytes)) (index other : ℕ) (bytes : Bytes)
    → get_elem? (set_slot slots index bytes) other ≡ some none
    → (get_elem? slots other ≡ some none) × ((index == other) ≡ false)
unfolding set_slot
set_slot_other [] index other bytes h = cc
set_slot_other (slot ∷ slots) zero zero bytes h = cc
set_slot_other (slot ∷ slots) zero (suc other) bytes h = (h, ground arith)
set_slot_other (slot ∷ slots) (suc index) zero bytes h = (h, ground arith)
set_slot_other (slot ∷ slots) (suc index) (suc other) bytes h =
    let (g, n) = set_slot_other slots index other bytes h in (g, ground (arith, n))
