-- ===== src/Proto/Accepted/Clipboard.antt =====
-- What the clipboard arms of `decode` let through (crates/syntra-proto/src/lib.rs).
use syntra.Prelude.{ℕ, ◌*◌, ◌≤◌, ◌<◌, ◌≡◌, ◌≢◌, ◌∙◌, some, arith, length}
use syntra.Proto.Error.{ok}
use syntra.Proto.Wire.{Decoder, get_u64, ◌>>=◌}
use syntra.Proto.Event.{ProtoEvent}
use syntra.Proto.Validate.{
  validate_clipboard_start, validate_clipboard_image, validate_request, validate_file_chunk,
  validate_file_position, validate_progress,
}
use syntra.Proto.Validate.Counts.{validate_clipboard_start_iff}
use syntra.Proto.Decode.Profile.{get_nonzero_request_id}
use syntra.Proto.Decode.Clipboard as Decode
use syntra.Proto.Accepted.Event.{IsAccepted, IsRange}
use syntra.Proto.Accepted.Rules.{
  Ensures, Ensures-pure, Ensures-bind, Ensures-bind_with, Ensures-lift, passed,
  get_nonzero_request_id-pos, get_nonzero_file_id-pos, take-length,
}

pub start-IsAccepted : Ensures IsAccepted Decode.start
unfolding Decode.start
start-IsAccepted = Ensures-bind _ _ λ t. Ensures-bind _ _ λ l. Ensures-bind _ _ λ c.
    Ensures-lift _ _ λ u e. Ensures-pure _ ((validate_clipboard_start_iff l c).0 (e ∙ passed u))

image_bounds :
    (w h l c : ℕ)
    → validate_clipboard_image w h l c ≡ ok tt
    → (l ≡ w * h * 4) × (validate_clipboard_start l c ≡ ok tt)
unfolding validate_clipboard_image
image_bounds w h l c v = ground arith

pub image_start-IsAccepted : Ensures IsAccepted Decode.image_start
unfolding Decode.image_start
image_start-IsAccepted = Ensures-bind _ _ λ t. Ensures-bind _ _ λ w. Ensures-bind _ _ λ h.
    Ensures-bind _ _ λ l. Ensures-bind _ _ λ c. Ensures-lift _ _ λ u e.
      let (size, v) = image_bounds w h l c (e ∙ passed u) in
      let (max, covers) = (validate_clipboard_start_iff l c).0 v in
      Ensures-pure _ (size, max, covers)

pub chunk-IsAccepted : Ensures IsAccepted Decode.chunk
unfolding Decode.chunk
chunk-IsAccepted =
    Ensures-bind _ _ λ t. Ensures-bind _ _ λ i. Ensures-bind _ _ λ b. Ensures-pure _ tt

pub capabilities-IsAccepted : Ensures IsAccepted Decode.capabilities
unfolding Decode.capabilities
capabilities-IsAccepted =
    Ensures-bind _ _ λ t. Ensures-bind _ _ λ i. Ensures-bind _ _ λ f. Ensures-pure _ tt

request_bounds : (o l : ℕ) → validate_request o l ≡ ok tt → IsRange o l
unfolding validate_request
request_bounds o l v = ground arith

chunk_bounds : (o n : ℕ) → validate_file_chunk o n ≡ ok tt → IsRange o n
unfolding validate_file_chunk
chunk_bounds o n v = ground arith

position_bounds : (n : ℕ) → validate_file_position n ≡ ok tt → n ≤ 67108864
unfolding validate_file_position
position_bounds n v = ground arith

progress_bounds : (c n : ℕ) → validate_progress c n ≡ ok tt → (c ≤ n) × (n ≤ 67108864)
unfolding validate_progress
progress_bounds c n v = ground arith

-- The three ids that begin a message about a file.
file_ids :
    (f : ℕ → ℕ → ℕ → Decoder ProtoEvent)
    → ((t i r : ℕ) → 0 < i → 0 < r → Ensures IsAccepted (f t i r))
    → Ensures IsAccepted (
        get_u64 >>= λ t.
        Decode.get_nonzero_file_id >>= λ i. get_nonzero_request_id >>= λ r. f t i r)
file_ids f h = Ensures-bind _ _ λ t.
    Ensures-bind_with _ _ get_nonzero_file_id-pos
      λ i hi. Ensures-bind_with _ _ get_nonzero_request_id-pos λ r hr. h t i r hi hr

pub file_request-IsAccepted : Ensures IsAccepted Decode.file_request
unfolding Decode.file_request
file_request-IsAccepted = file_ids _ λ t i r hi hr. Ensures-bind _ _ λ o.
    Ensures-bind _ _
      λ l. Ensures-lift _ _ λ u e. Ensures-pure _ (hi, hr, request_bounds o l (e ∙ passed u))

pub file_chunk-IsAccepted : Ensures IsAccepted Decode.file_chunk
unfolding Decode.file_chunk
file_chunk-IsAccepted = file_ids _ λ t i r hi hr. Ensures-bind _ _ λ o.
    Ensures-bind _ _
      λ b. Ensures-lift _ _ λ u e. Ensures-pure _ (hi, hr, chunk_bounds o (length b) (e ∙ passed u))

pub file_complete-IsAccepted : Ensures IsAccepted Decode.file_complete
unfolding Decode.file_complete
file_complete-IsAccepted = file_ids _ λ t i r hi hr. Ensures-bind _ _ λ n. Ensures-lift _ _ λ u e.
    Ensures-bind_with _ _ (take-length 32)
      λ g hg. Ensures-pure _ (hi, hr, position_bounds n (e ∙ passed u), hg)

some_nonzero-ne : (n : ℕ) → Decode.some_nonzero n ≢ some 0
unfolding Decode.some_nonzero
some_nonzero-ne n e = ground arith

pub transfer_cancel-IsAccepted : Ensures IsAccepted Decode.transfer_cancel
unfolding Decode.transfer_cancel
transfer_cancel-IsAccepted = Ensures-bind _ _ λ t.
    Ensures-bind _ _
      λ id. Ensures-bind _ _ λ b. Ensures-lift _ _ λ r e. Ensures-pure _ (some_nonzero-ne id)

pub transfer_progress-IsAccepted : Ensures IsAccepted Decode.transfer_progress
unfolding Decode.transfer_progress
transfer_progress-IsAccepted = Ensures-bind _ _ λ t.
    Ensures-bind_with _ _ get_nonzero_file_id-pos λ i hi. Ensures-bind _ _ λ c.
      Ensures-bind _ _ λ n.
        Ensures-lift _ _
          λ u e. let (le, max) = progress_bounds c n (e ∙ passed u) in Ensures-pure _ (hi, le, max)
