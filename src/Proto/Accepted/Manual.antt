-- ===== src/Proto/Accepted/Manual.antt =====
-- What the manual transfer arms of `decode` let through (crates/syntra-proto/src/lib.rs).
use syntra.Prelude.{
  ℕ, ◌≤◌, ◌<◌, ◌≡◌, subst, ◌∙◌, false, ◌||◌, Option, none, some, [], ◌∷◌, arith, length, is_empty,
  ltb, ◌==◌,
}
use syntra.Proto.Error.{Bytes, ok}
use syntra.Proto.Names.Safe.{manual_name-IsComponent}
use syntra.Proto.Encode.Manual.{check_error}
use syntra.Proto.Accepted.Event.{IsAccepted, IsShortText}
use syntra.Proto.Accepted.Rules.{
  Ensures, Ensures-pure, Ensures-bind, Ensures-bind_with, Ensures-lift, Ensures-check, passed,
  from_utf8-eq-ok, get_nonzero_transfer_id-pos, take-length,
}
use syntra.Proto.Decode.Manual as Decode

pub offer-IsAccepted : Ensures IsAccepted Decode.offer
unfolding Decode.offer
offer-IsAccepted = Ensures-bind_with _ _ get_nonzero_transfer_id-pos λ t ht. Ensures-bind _ _ λ n.
    Ensures-check _ _ _ λ bounds. Ensures-bind_with _ _ (take-length n) λ bytes hb.
      Ensures-lift _ _ λ name e. Ensures-lift _ _ λ u v. Ensures-bind _ _ λ size.
        let (q, text) = from_utf8-eq-ok bytes name _ e in
        Ensures-pure _ (
          ht,
          (manual_name-IsComponent name (v ∙ passed u)).0,
          subst (λ s. length s ≤ 1024) q (short n bytes bounds hb),
          text,
        )
  where
    short :
        (n : ℕ) (bytes : Bytes)
        → (n == 0 || ltb 1024 n) ≡ false
        → length bytes ≡ n
        → length bytes ≤ 1024
    short n bytes h e = ground arith

pub decision-IsAccepted : Ensures IsAccepted Decode.decision
unfolding Decode.decision
decision-IsAccepted =
    Ensures-bind_with _ _ get_nonzero_transfer_id-pos
      λ t ht. Ensures-bind _ _ λ b. Ensures-lift _ _ λ d e. Ensures-pure _ ht

pub request-IsAccepted : Ensures IsAccepted Decode.request
unfolding Decode.request
request-IsAccepted = Ensures-bind _ _ λ t.
    Ensures-bind _ _
      λ o. Ensures-bind _ _ λ l. Ensures-check _ _ _ λ h. Ensures-pure _ (ground arith)

nonempty : (bytes : Bytes) → is_empty bytes ≡ false → 0 < length bytes
nonempty [] h = cc
nonempty (b ∷ bytes) h = omega arith

pub chunk-IsAccepted : Ensures IsAccepted Decode.chunk
unfolding Decode.chunk
chunk-IsAccepted = Ensures-bind _ _ λ t.
    Ensures-bind _ _ λ o.
      Ensures-bind _ _ λ b. Ensures-check _ _ _ λ h. Ensures-pure _ (ground (arith, nonempty b))

pub complete-IsAccepted : Ensures IsAccepted Decode.complete
unfolding Decode.complete
complete-IsAccepted =
    Ensures-bind_with _ _ get_nonzero_transfer_id-pos
      λ t ht. Ensures-bind_with _ _ (take-length 32) λ g hg. Ensures-pure _ (ht, hg)

short_text : (error : Option Bytes) → check_error error ≡ ok tt → IsShortText error
unfolding check_error
short_text none h = tt
short_text (some text) h = ground arith

pub result-IsAccepted : Ensures IsAccepted Decode.result
unfolding Decode.result
result-IsAccepted = Ensures-bind_with _ _ get_nonzero_transfer_id-pos λ t ht. Ensures-bind _ _ λ s.
    Ensures-bind _ _
      λ error. Ensures-lift _ _ λ u e. Ensures-pure _ (ht, short_text error (e ∙ passed u))

pub cancel-IsAccepted : Ensures IsAccepted Decode.cancel
unfolding Decode.cancel
cancel-IsAccepted = Ensures-bind_with _ _ get_nonzero_transfer_id-pos λ t ht. Ensures-pure _ ht
