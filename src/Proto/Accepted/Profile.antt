-- ===== src/Proto/Accepted/Profile.antt =====
-- What the profile arms of `decode` let through (crates/syntra-proto/src/lib.rs).
use syntra.Prelude.{ℕ, ◌*◌, ◌≤◌, ◌<◌, ◌≡◌, subst, false, [], ◌∷◌, arith, length, is_empty}
use syntra.Proto.Error.{Bytes}
use syntra.Proto.Validate.{invalid_profile_metadata}
use syntra.Proto.Accepted.Event.{IsAccepted}
use syntra.Proto.Accepted.Rules.{
  Ensures, Ensures-pure, Ensures-bind, Ensures-bind_with, Ensures-lift, Ensures-check,
  from_utf8-eq-ok, get_nonzero_request_id-pos, take-length,
}
use syntra.Proto.Decode.Profile as Decode

pub request-IsAccepted : Ensures IsAccepted Decode.request
unfolding Decode.request
request-IsAccepted = Ensures-bind_with _ _ get_nonzero_request_id-pos λ r hr. Ensures-pure _ hr

metadata_bounds :
    (n w h l c : ℕ)
    → invalid_profile_metadata n w h l c ≡ false
    → (w ≤ 128) × (h ≤ 128) × (l ≡ w * h * 4) × (0 < l → 0 < c) × (n ≤ 128)
unfolding invalid_profile_metadata
metadata_bounds n w h l c v =
    (ground arith, ground arith, ground arith, λ p. ground arith, ground arith)

pub start-IsAccepted : Ensures IsAccepted Decode.start
unfolding Decode.start
start-IsAccepted = Ensures-bind_with _ _ get_nonzero_request_id-pos λ r hr. Ensures-bind _ _ λ w.
    Ensures-bind _ _ λ h. Ensures-bind _ _ λ l. Ensures-bind _ _ λ c. Ensures-bind _ _ λ n.
      Ensures-check _ _ _ λ v. Ensures-bind_with _ _ (take-length n) λ bytes hb.
        Ensures-lift _ _ λ name e.
          let (q, text) = from_utf8-eq-ok bytes name _ e in
          let (hw, hh, size, chunked, hn) = metadata_bounds n w h l c v in
          Ensures-pure _ (hr, hw, hh, size, chunked, subst (λ s. length s ≤ 128) q (rw hb hn), text)

nonempty : (bytes : Bytes) → is_empty bytes ≡ false → 0 < length bytes
nonempty [] h = cc
nonempty (b ∷ bytes) h = omega arith

pub chunk-IsAccepted : Ensures IsAccepted Decode.chunk
unfolding Decode.chunk
chunk-IsAccepted = Ensures-bind_with _ _ get_nonzero_request_id-pos λ r hr.
    Ensures-bind _ _ λ i.
      Ensures-bind _ _ λ b. Ensures-check _ _ _ λ h. Ensures-pure _ (ground (arith, nonempty b))
