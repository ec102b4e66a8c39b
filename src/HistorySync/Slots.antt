-- ===== src/HistorySync/Slots.antt =====
-- The chunks of a record of crates/syntra-core/src/history_sync.rs: how many are there, and the whole.
use syntra.Prelude.{
  ℕ, zero, suc, ◌≤◌, ◌<◌, ◌≡◌, refl, ap, Option, none, some, List, [], ◌∷◌, ◌++◌, arith, length,
  get_elem?,
}
use syntra.Proto.Error.{Bytes}
use syntra.HistorySync.Reassembler.{empty_slots, set_slot, gather}

unfoldable pub filled : List (Option Bytes) → ℕ
filled [] = 0
filled (none ∷ slots) = filled slots
filled (some bytes ∷ slots) = suc (filled slots)

pub filled-empty_slots : (n : ℕ) → (filled (empty_slots n) ≡ 0) × (length (empty_slots n) ≡ n)
unfolding filled empty_slots
filled-empty_slots zero = (refl, refl)
filled-empty_slots (suc n) = let (f, l) = filled-empty_slots n in (f, ap suc l)

pub filled_le : (slots : List (Option Bytes)) → filled slots ≤ length slots
unfolding filled
filled_le [] = omega arith
filled_le (none ∷ slots) = omega (arith, filled_le slots)
filled_le (some bytes ∷ slots) = omega (arith, filled_le slots)

pub length-set_slot :
    (slots : List (Option Bytes)) (index : ℕ) (bytes : Bytes)
    → length (set_slot slots index bytes) ≡ length slots
unfolding set_slot
length-set_slot [] index bytes = refl
length-set_slot (slot ∷ slots) zero bytes = refl
length-set_slot (slot ∷ slots) (suc index) bytes = ap suc (length-set_slot slots index bytes)

pub filled-set_slot :
    (slots : List (Option Bytes)) (index : ℕ) (bytes : Bytes)
    → get_elem? slots index ≡ some none
    → filled (set_slot slots index bytes) ≡ suc (filled slots)
unfolding set_slot filled
filled-set_slot [] index bytes h = cc
filled-set_slot (none ∷ slots) zero bytes h = refl
filled-set_slot (some b ∷ slots) zero bytes h = cc
filled-set_slot (none ∷ slots) (suc index) bytes h = filled-set_slot slots index bytes h
filled-set_slot (some b ∷ slots) (suc index) bytes h = ap suc (filled-set_slot slots index bytes h)

pub get_elem?-lt :
    (slots : List (Option Bytes)) (index : ℕ)
    → index < length slots
    → (slot : Option Bytes) × (get_elem? slots index ≡ some slot)
get_elem?-lt [] index h = absurd (omega arith)
get_elem?-lt (slot ∷ slots) zero h = (slot, refl)
get_elem?-lt (slot ∷ slots) (suc index) h = get_elem?-lt slots index (omega arith)

-- A full record is put together.
pub gather-full :
    (slots : List (Option Bytes))
    → filled slots ≡ length slots
    → (bytes : Bytes) × (gather slots ≡ some bytes)
unfolding gather filled
gather-full [] h = ([], refl)
gather-full (none ∷ slots) h = absurd (omega (arith, filled_le slots))
gather-full (some bytes ∷ slots) h =
    let (rest, g) = gather-full slots (omega arith) in (bytes ++ rest, rw (g) refl)
