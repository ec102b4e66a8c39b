-- ===== src/HistorySync/Sending.antt =====
-- crates/syntra-core/src/history_sync.rs: `record_events`, which splits a record for sending, and what
-- becomes of its pieces.
use syntra.Prelude.{
  length-drop, ℕ, zero, suc, ◌+◌, ◌-◌, ◌%◌, ◌^◌, ◌≤◌, ◌<◌, ◌≡◌, refl, subst, not, ◌||◌, List, [],
  ◌∷◌, arith, length, is_empty, concat, take, drop, ltb, if◌then◌else◌, length-take,
  take-append-drop, Bool-cases, inl, inr,
}
use syntra.Proto.Error.{Bytes}
use syntra.Proto.Event.{ProtoEvent}
use syntra.Proto.Validate.Counts.{Covers}
use syntra.Proto.Limits.{div_ceil, max_history_chunk_size, max_history_record_size}
use syntra.HistorySync.Reassembler.{Outcome, refused, done, empty_slots}
use syntra.HistorySync.Pieces.{IsSplit, Agrees}

-- `bytes.chunks(MAX_HISTORY_CHUNK_SIZE)`. Each piece takes at least one byte, so the length of the
-- bytes is fuel enough.
unfoldable pub pieces_within : ℕ → Bytes → List Bytes
pieces_within zero bytes = []
pieces_within (suc fuel) [] = []
pieces_within (suc fuel) (b ∷ bytes) =
    take max_history_chunk_size (b ∷ bytes)
    ∷ pieces_within fuel (drop max_history_chunk_size (b ∷ bytes))

unfoldable pub pieces_of : Bytes → List Bytes
pieces_of bytes = pieces_within (length bytes) bytes

unfoldable pub chunk_events : ℕ → ℕ → ℕ → List Bytes → List ProtoEvent
chunk_events request_id record_id index [] = []
chunk_events request_id record_id index (piece ∷ pieces) =
    ProtoEvent.history_record_chunk request_id record_id (index % 2 ^ 32) piece
    ∷ chunk_events request_id record_id (index + 1) pieces

unfoldable pub events_of : ℕ → ℕ → Outcome Bytes → Outcome (List ProtoEvent)
events_of request_id record_id (refused reason) = refused reason
events_of request_id record_id (done bytes) =
    if is_empty bytes || ltb max_history_record_size (length bytes)
    then refused "serialized history record exceeds protocol limit"
    else if not (ltb (length bytes) (2 ^ 32))
    then refused "history record is too large"
    else done (
        ProtoEvent.history_record_start request_id record_id (length bytes)
          (div_ceil (length bytes) max_history_chunk_size)
        ∷ chunk_events request_id record_id 0 (pieces_of bytes))

-- `serialize` is that of the codec library.
unfoldable pub record_events :
    {Event : Type 0} → (Event → Outcome Bytes) → ℕ → ℕ → Event → Outcome (List ProtoEvent)
record_events serialize request_id record_id event =
    events_of request_id record_id (serialize event)

concat-pieces_within :
    (fuel : ℕ) (bytes : Bytes) → length bytes ≤ fuel → concat (pieces_within fuel bytes) ≡ bytes
unfolding pieces_within
concat-pieces_within zero [] l = refl
concat-pieces_within zero (b ∷ bytes) l = absurd (omega arith)
concat-pieces_within (suc fuel) [] l = refl
concat-pieces_within (suc fuel) (b ∷ bytes) l =
    rw
      (concat-pieces_within fuel (drop 1179 (b ∷ bytes))
        (omega (arith, length-drop 1179 (b ∷ bytes))))
      (take-append-drop 1179 (b ∷ bytes))

IsSplit-cons :
    (total : ℕ) (piece : Bytes) (pieces : List Bytes)
    → length piece ≡ 1179
    → 1179 < total
    → IsSplit (total - 1179) pieces
    → IsSplit total (piece ∷ pieces)
unfolding IsSplit
IsSplit-cons total piece [] e l s = absurd s
IsSplit-cons total piece (next ∷ pieces) e l s = (e, l, s)

split_more :
    (fuel : ℕ) (bytes : Bytes)
    → 1179 < length bytes
    → IsSplit (length (drop 1179 bytes)) (pieces_within fuel (drop 1179 bytes))
    → IsSplit (length bytes) (take 1179 bytes ∷ pieces_within fuel (drop 1179 bytes))
split_more fuel bytes n s =
    IsSplit-cons _ _ _ (omega (arith, length-take 1179 bytes)) n
      (subst (λ x. IsSplit x (pieces_within fuel (drop 1179 bytes))) (length-drop 1179 bytes) s)

pieces_within-nil : (fuel : ℕ) (bytes : Bytes) → length bytes ≡ 0 → pieces_within fuel bytes ≡ []
unfolding pieces_within
pieces_within-nil zero bytes h = refl
pieces_within-nil (suc fuel) [] h = refl
pieces_within-nil (suc fuel) (b ∷ bytes) h = absurd (omega arith)

split_last :
    (fuel : ℕ) (bytes : Bytes)
    → 0 < length bytes
    → length bytes ≤ 1179
    → IsSplit (length bytes) (take 1179 bytes ∷ pieces_within fuel (drop 1179 bytes))
unfolding IsSplit
split_last fuel bytes p n =
    rw (pieces_within-nil fuel (drop 1179 bytes) (omega (arith, length-drop 1179 bytes)))
      (omega (arith, length-take 1179 bytes), p, n)

pieces_within-IsSplit :
    (fuel : ℕ) (bytes : Bytes)
    → length bytes ≤ fuel
    → 0 < length bytes
    → IsSplit (length bytes) (pieces_within fuel bytes)
unfolding pieces_within IsSplit
pieces_within-IsSplit zero bytes l p = absurd (omega arith)
pieces_within-IsSplit (suc fuel) [] l p = absurd (omega arith)
pieces_within-IsSplit (suc fuel) (b ∷ bytes) l p =
    let rest = drop 1179 (b ∷ bytes) in
    elim (Bool-cases (ltb 1179 (length (b ∷ bytes)))) [
      | inl t ↦
          let n : 1179 < length (b ∷ bytes) = ground arith in
          split_more fuel (b ∷ bytes) n (
            pieces_within-IsSplit fuel rest (omega (arith, length-drop 1179 (b ∷ bytes)))
              (omega (arith, length-drop 1179 (b ∷ bytes))))
      | inr f ↦ split_last fuel (b ∷ bytes) p (ground arith)
    ]

pub pieces_of-IsSplit :
    (bytes : Bytes) → 0 < length bytes → IsSplit (length bytes) (pieces_of bytes)
unfolding pieces_of
pieces_of-IsSplit bytes p = pieces_within-IsSplit (length bytes) bytes (omega arith) p

pub concat-pieces_of : (bytes : Bytes) → concat (pieces_of bytes) ≡ bytes
unfolding pieces_of
concat-pieces_of bytes = concat-pieces_within (length bytes) bytes (omega arith)

-- As many pieces as it takes to cover the whole.
pub IsSplit-Covers :
    (total : ℕ) (pieces : List Bytes) → IsSplit total pieces → Covers 1179 total (length pieces)
unfolding IsSplit
IsSplit-Covers total [] s = absurd s
IsSplit-Covers total (piece ∷ []) s = (omega (arith, s.1, s.2), omega (arith, s.1, s.2))
IsSplit-Covers total (piece ∷ next ∷ pieces) s =
    let (lo, hi) = IsSplit-Covers (total - 1179) (next ∷ pieces) s.2 in
    (omega (arith, s.1, lo), omega (arith, s.1, hi))

pub empty_slots-Agrees : (pieces : List Bytes) → Agrees pieces (empty_slots (length pieces))
unfolding Agrees empty_slots
empty_slots-Agrees [] = tt
empty_slots-Agrees (piece ∷ pieces) = empty_slots-Agrees pieces

pub Covers-div_ceil : (total n : ℕ) → Covers 1179 total n → div_ceil total 1179 ≡ n
unfolding div_ceil
Covers-div_ceil total n c = ground (arith, c.0, c.1)
