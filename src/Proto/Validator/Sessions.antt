-- ===== src/Proto/Validator/Sessions.antt =====
-- What a whole session with the chunk validator of crates/syntra-proto allows.
use syntra.Prelude.{
  ℕ, ◌+◌, ◌≤◌, ◌<◌, ◌≡◌, Bool, true, false, Option, none, some, List, [], ◌∷◌, arith, ltb,
}
use syntra.Proto.Error.{Result, ok, err}
use syntra.Proto.Validate.{
  validate_request, validate_file_chunk, validate_file_position, differs_from,
}
use syntra.Proto.Validator.{
  ClipboardFileChunkValidator, new, validate_chunk, check_size, validate_complete,
}

-- The answers that a peer may send, in any order and with any contents.
pub data Answer : Type 0 where
  chunk : (transfer_id file_id request_id offset data_len : ℕ) → Answer
  completion : (transfer_id file_id request_id size : ℕ) → Answer

unfoldable pub validate : ClipboardFileChunkValidator → Answer → Result ClipboardFileChunkValidator
validate v (chunk t f r o n) = validate_chunk v t f r o n
validate v (completion t f r n) = validate_complete v t f r n

-- An answer that is refused leaves the validator as it was.
abbrev after :
    ClipboardFileChunkValidator → Result ClipboardFileChunkValidator → ClipboardFileChunkValidator
after v (ok w) = w
after v (err e) = v

abbrev one_if_ok : Result ClipboardFileChunkValidator → ℕ
one_if_ok (ok w) = 1
one_if_ok (err e) = 0

abbrev pub chunks_in : Answer → Result ClipboardFileChunkValidator → ℕ
chunks_in (chunk t f r o n) result = one_if_ok result
chunks_in (completion t f r n) result = 0

abbrev pub completions_in : Answer → Result ClipboardFileChunkValidator → ℕ
completions_in (chunk t f r o n) result = 0
completions_in (completion t f r n) result = one_if_ok result

unfoldable pub run : ClipboardFileChunkValidator → List Answer → ClipboardFileChunkValidator
run v [] = v
run v (a ∷ as') = run (after v (validate v a)) as'

-- How many chunks, and how many completions, a session accepts.
unfoldable pub accepted_chunks : ClipboardFileChunkValidator → List Answer → ℕ
accepted_chunks v [] = 0
accepted_chunks v (a ∷ as') =
    chunks_in a (validate v a) + accepted_chunks (after v (validate v a)) as'

unfoldable pub accepted_completions : ClipboardFileChunkValidator → List Answer → ℕ
accepted_completions v [] = 0
accepted_completions v (a ∷ as') =
    completions_in a (validate v a) + accepted_completions (after v (validate v a)) as'

abbrev flag : Bool → ℕ
flag true = 1
flag false = 0

abbrev end_of : Option ℕ → ℕ
end_of none = 0
end_of (some n) = n

-- What the fields say of each other at any time: the range asked for is not empty and lies within
-- the limit, and a chunk that was received begins at its start and does not pass its end.
pub record IsValid (v : ClipboardFileChunkValidator) : Type 0 where
  pub nonempty : 0 < v.length
  pub within : v.offset + v.length ≤ 67108864
  pub chunk_end : v.chunk_received ≡ true → v.chunk_end ≡ some (end_of v.chunk_end)
  pub from_offset : v.chunk_received ≡ true → v.offset < end_of v.chunk_end
  pub to_length : v.chunk_received ≡ true → end_of v.chunk_end ≤ v.offset + v.length
  pub eof : v.chunk_received ≡ true → v.eof ≡ ltb (end_of v.chunk_end) (v.offset + v.length)

new-IsValid : (t f r o l : ℕ) (v : ClipboardFileChunkValidator) → new t f r o l ≡ ok v → IsValid v
unfolding new validate_request
new-IsValid t f r o l v h = ground arith

chunk-IsValid :
    (v w : ClipboardFileChunkValidator) (t f r o n : ℕ)
    → IsValid v
    → validate_chunk v t f r o n ≡ ok w
    → IsValid w
unfolding validate_chunk validate_file_chunk
chunk-IsValid v w t f r o n i h = ground arith

complete-IsValid :
    (v w : ClipboardFileChunkValidator) (t f r n : ℕ)
    → IsValid v
    → validate_complete v t f r n ≡ ok w
    → IsValid w
unfolding validate_complete
complete-IsValid v w t f r n i h = ground arith

-- One accepted chunk rules out another, and one accepted completion too.
chunk-count :
    (v : ClipboardFileChunkValidator) (a : Answer)
    → chunks_in a (validate v a) + flag v.chunk_received
      ≤ flag (after v (validate v a)).chunk_received
unfolding validate validate_chunk validate_complete
chunk-count v (chunk t f r o n) = ground arith
chunk-count v (completion t f r n) = ground arith

completion-count :
    (v : ClipboardFileChunkValidator) (a : Answer)
    → completions_in a (validate v a) + flag v.complete ≤ flag (after v (validate v a)).complete
unfolding validate validate_chunk validate_complete
completion-count v (chunk t f r o n) = ground arith
completion-count v (completion t f r n) = ground arith

accepted_chunks-le :
    (v : ClipboardFileChunkValidator) (answers : List Answer)
    → accepted_chunks v answers + flag v.chunk_received ≤ 1
unfolding accepted_chunks
accepted_chunks-le v [] = ground arith
accepted_chunks-le v (a ∷ answers) =
    omega (arith, chunk-count v a, accepted_chunks-le (after v (validate v a)) answers)

accepted_completions-le :
    (v : ClipboardFileChunkValidator) (answers : List Answer)
    → accepted_completions v answers + flag v.complete ≤ 1
unfolding accepted_completions
accepted_completions-le v [] = ground arith
accepted_completions-le v (a ∷ answers) =
    omega (arith, completion-count v a, accepted_completions-le (after v (validate v a)) answers)

-- Whatever answers a peer sends, in any number and order, the validator accepts at most one chunk
-- and at most one completion.
pub accepted-le-one :
    (v : ClipboardFileChunkValidator) (answers : List Answer)
    → (accepted_chunks v answers ≤ 1) × (accepted_completions v answers ≤ 1)
accepted-le-one v answers =
    (omega (arith, accepted_chunks-le v answers), omega (arith, accepted_completions-le v answers))

after-keeps :
    (o l : ℕ) (v : ClipboardFileChunkValidator) (a : Answer)
    → IsValid v
    → (v.offset ≡ o) × (v.length ≡ l)
    → IsValid (after v (validate v a))
      × ((after v (validate v a)).offset ≡ o)
      × ((after v (validate v a)).length ≡ l)
unfolding validate validate_chunk validate_complete validate_file_chunk
after-keeps o l v (chunk t f r p n) i e = ground arith
after-keeps o l v (completion t f r n) i e = ground arith

run-keeps :
    (o l : ℕ) (v : ClipboardFileChunkValidator) (answers : List Answer)
    → IsValid v
    → (v.offset ≡ o) × (v.length ≡ l)
    → IsValid (run v answers) × ((run v answers).offset ≡ o) × ((run v answers).length ≡ l)
unfolding run
run-keeps o l v [] i e = (i, e.0, e.1)
run-keeps o l v (a ∷ answers) i e =
    let (i', o', l') = after-keeps o l v a i e in
    run-keeps o l (after v (validate v a)) answers i' (o', l')

complete-size :
    (v w : ClipboardFileChunkValidator) (t f r n : ℕ)
    → IsValid v
    → validate_complete v t f r n ≡ ok w
    → (v.offset ≤ n) × (n < v.offset + v.length) × (n ≤ 67108864)
unfolding validate_complete check_size validate_file_position differs_from
complete-size v w t f r n i h = ground arith

new-offset :
    (t f r o l : ℕ) (v : ClipboardFileChunkValidator)
    → new t f r o l ≡ ok v
    → (v.offset ≡ o) × (v.length ≡ l)
unfolding new
new-offset t f r o l v h = ground arith

-- After a request for `l` bytes from offset `o` and any answers, a completion that is accepted names
-- a file size that lies in the range asked for, from its start to before its end, and within the
-- limit of 64 MiB.
pub completion-InRange :
    (t f r o l : ℕ) (v : ClipboardFileChunkValidator) (answers : List Answer) (t' f' r' n : ℕ)
    (w : ClipboardFileChunkValidator)
    → new t f r o l ≡ ok v
    → validate_complete (run v answers) t' f' r' n ≡ ok w
    → (o ≤ n) × (n < o + l) × (n ≤ 67108864)
completion-InRange t f r o l v answers t' f' r' n w e h =
    let (i, eo, el) =
      run-keeps o l v answers (new-IsValid t f r o l v e) (new-offset t f r o l v e) in
    let (lo, hi, max) = complete-size (run v answers) w t' f' r' n i h in
    (omega arith, omega arith, max)

-- An accepted completion closes the session: whatever comes after it is refused.
pub completion_closes :
    (v w : ClipboardFileChunkValidator) (t f r n : ℕ) (b : Answer)
    → validate_complete v t f r n ≡ ok w
    → (chunks_in b (validate w b) ≡ 0) × (completions_in b (validate w b) ≡ 0)
unfolding validate validate_chunk validate_complete
completion_closes v w t f r n (chunk t' f' r' o' n') h = ground arith
completion_closes v w t f r n (completion t' f' r' n') h = ground arith
