-- ===== src/Profiles/Slots.antt =====
-- crates/syntra-core/src/peer_profile.rs: the chunks of an avatar, and how long they are together.
use syntra.Prelude.{
  ℕ, zero, suc, ◌+◌, ◌-◌, ◌*◌, ◌≡◌, refl, subst, Option, none, some, List, [], ◌∷◌, ◌++◌, length,
  length-append, min, arith,
}
use syntra.Proto.Error.{Bytes}
use syntra.Proto.Limits.{max_profile_chunk_size}
use syntra.HistorySync.Reassembler.{empty_slots, set_slot, gather, cons_slot}

-- Each slot from an index on holds as many bytes as the avatar has there, or none.
unfoldable pub Fits : ℕ → ℕ → List (Option Bytes) → Type 0
Fits total index [] = Unit
Fits total index (none ∷ slots) = Fits total (index + 1) slots
Fits total index (some bytes ∷ slots) =
    (length bytes ≡ min max_profile_chunk_size (total - index * max_profile_chunk_size))
    × Fits total (index + 1) slots

pub Fits-empty_slots : (n total index : ℕ) → Fits total index (empty_slots n)
unfolding Fits empty_slots
Fits-empty_slots zero total index = tt
Fits-empty_slots (suc n) total index = Fits-empty_slots n total (index + 1)

pub length-empty_slots : (n : ℕ) → length (empty_slots n) ≡ n
unfolding empty_slots
length-empty_slots zero = refl
length-empty_slots (suc n) = omega (arith, length-empty_slots n)

pub Fits-set_slot :
    (slots : List (Option Bytes)) (total index i : ℕ) (bytes : Bytes)
    → Fits total index slots
    → length bytes ≡ min max_profile_chunk_size (total - (index + i) * max_profile_chunk_size)
    → Fits total index (set_slot slots i bytes)
unfolding Fits set_slot
Fits-set_slot [] total index i bytes f q = tt
Fits-set_slot (none ∷ slots) total index zero bytes f q = (omega (arith, q), f)
Fits-set_slot (some b ∷ slots) total index zero bytes f q = (omega (arith, q), f.1)
Fits-set_slot (none ∷ slots) total index (suc i) bytes f q =
    Fits-set_slot slots total (index + 1) i bytes f (omega (arith, q))
Fits-set_slot (some b ∷ slots) total index (suc i) bytes f q =
    (f.0, Fits-set_slot slots total (index + 1) i bytes f.1 (omega (arith, q)))

pub length-gather :
    (slots : List (Option Bytes)) (total index : ℕ) (rgba : Bytes)
    → Fits total index slots
    → gather slots ≡ some rgba
    → length rgba
      ≡ min (total - index * max_profile_chunk_size) (length slots * max_profile_chunk_size)
unfolding Fits gather cons_slot
length-gather [] total index rgba f q =
    let empty : [] ≡ rgba = cc in
    subst (λ r. length r ≡ min (total - index * max_profile_chunk_size) 0) empty (omega arith)
length-gather (none ∷ slots) total index rgba f q = absurd cc
length-gather (some bytes ∷ slots) total index rgba (l, f) q =
    go (λ rest g. length-gather slots total (index + 1) rest f g) (gather slots) refl q
  where
    go :
        ((rest : Bytes)
          → gather slots ≡ some rest
          → length rest
            ≡ min
                (total - (index + 1) * max_profile_chunk_size)
                (length slots * max_profile_chunk_size))
        → (o : Option Bytes) → gather slots ≡ o
        → cons_slot (some bytes) o ≡ some rgba
        → length rgba
          ≡ min
              (total - index * max_profile_chunk_size)
              (suc (length slots) * max_profile_chunk_size)
    go later none g q = absurd cc
    go later (some rest) g q =
        let whole : bytes ++ rest ≡ rgba = cc in
        let l_rest = later rest g in
        subst
          (λ r.
            length r
            ≡ min (total - index * max_profile_chunk_size)
                (suc (length slots) * max_profile_chunk_size))
          whole (omega (arith, l, l_rest, length-append bytes rest))
