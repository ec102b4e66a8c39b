-- ===== src/Proto/Accepted/History.antt =====
-- What the history arms of `decode` let through (crates/syntra-proto/src/lib.rs).
use syntra.Prelude.{
  ℕ, zero, suc, ◌≤◌, ◌<◌, ◌≡◌, refl, subst, ap, ◌∙◌, false, ◌||◌, [], ◌∷◌, arith, length, is_empty,
  ltb, ◌==◌, All,
}
use syntra.Proto.Error.{Bytes}
use syntra.Proto.Event.{ProtoEvent}
use syntra.Proto.Validate.Counts.{validate_history_start_iff}
use syntra.Proto.Accepted.Event.{IsAccepted, IsDeviceId, IsAcceptedBoundary}
use syntra.Proto.Accepted.Rules.{
  Ensures, Ensures-pure, Ensures-bind, Ensures-bind_with, Ensures-lift, Ensures-check, passed,
  from_utf8-eq-ok, take-length,
}
use syntra.Proto.Event.{Boundary}
use syntra.Proto.Decode.History as Decode

pub sync_request-IsAccepted : Ensures IsAccepted Decode.sync_request
unfolding Decode.sync_request
sync_request-IsAccepted = Ensures-bind _ _ λ r. Ensures-bind _ _ λ o. Ensures-pure _ tt

pub record_start-IsAccepted : Ensures IsAccepted Decode.record_start
unfolding Decode.record_start
record_start-IsAccepted = Ensures-bind _ _ λ r. Ensures-bind _ _ λ i. Ensures-bind _ _ λ l.
    Ensures-bind _ _ λ c.
      Ensures-lift _ _ λ u e. Ensures-pure _ ((validate_history_start_iff l c).0 (e ∙ passed u))

nonempty : (bytes : Bytes) → is_empty bytes ≡ false → 0 < length bytes
nonempty [] h = cc
nonempty (b ∷ bytes) h = omega arith

pub record_chunk-IsAccepted : Ensures IsAccepted Decode.record_chunk
unfolding Decode.record_chunk
record_chunk-IsAccepted = Ensures-bind _ _ λ r. Ensures-bind _ _ λ i.
    Ensures-bind _ _ λ x.
      Ensures-bind _ _ λ b. Ensures-check _ _ _ λ h. Ensures-pure _ (ground (arith, nonempty b))

pub sync_page_end-IsAccepted : Ensures IsAccepted Decode.sync_page_end
unfolding Decode.sync_page_end
sync_page_end-IsAccepted = Ensures-bind _ _ λ r. Ensures-bind _ _ λ o. Ensures-pure _ tt

pub boundary_request-IsAccepted : Ensures IsAccepted Decode.boundary_request
unfolding Decode.boundary_request
boundary_request-IsAccepted = Ensures-bind_with _ _ (take-length 16) λ id h. Ensures-pure _ h

pairs-IsDeviceId :
    (n : ℕ) → Ensures (λ b. (length b ≡ n) × All IsDeviceId b) (Decode.decode_pairs n)
unfolding Decode.decode_pairs
pairs-IsDeviceId zero = Ensures-pure _ (refl, tt)
pairs-IsDeviceId (suc n) = Ensures-bind _ _ λ l. Ensures-check _ _ _ λ bounds.
    Ensures-bind_with _ _ (take-length l) λ bytes hb. Ensures-lift _ _ λ id e. Ensures-bind _ _ λ s.
      Ensures-bind_with _ _ (pairs-IsDeviceId n) λ rest hr.
        let (q, text) = from_utf8-eq-ok bytes id _ e in
        let (pos, le) = subst (λ s. (0 < length s) × (length s ≤ 128)) q (fits l bytes bounds hb) in
        Ensures-pure _ (ap suc hr.0, ((pos, le, text), hr.1))
  where
    fits :
        (l : ℕ) (bytes : Bytes)
        → (l == 0 || ltb 128 l) ≡ false
        → length bytes ≡ l
        → (0 < length bytes) × (length bytes ≤ 128)
    fits l bytes h e = ground arith

boundary-IsAccepted : Ensures IsAcceptedBoundary Decode.decode_history_boundary
unfolding Decode.decode_history_boundary
boundary-IsAccepted = Ensures-bind _ _ λ n. Ensures-check _ _ _ λ few. record {
  at = λ buf rest b e.
      let (len, ids) = (pairs-IsDeviceId n).at buf rest b e in (rw len (bound n few), ids);
}
  where
    bound : (n : ℕ) → ltb 100 n ≡ false → n ≤ 100
    bound n h = ground arith

pub clear_boundary-IsAccepted :
    (event : Bytes → Boundary → ProtoEvent)
    → ((id : Bytes) (b : Boundary)
        → (length id ≡ 16) × IsAcceptedBoundary b
        → IsAccepted (event id b))
    → Ensures IsAccepted (Decode.clear_boundary event)
unfolding Decode.clear_boundary
clear_boundary-IsAccepted event h =
    Ensures-bind_with _ _ (take-length 16)
      λ id hi. Ensures-bind_with _ _ boundary-IsAccepted λ b hb. Ensures-pure _ (h id b (hi, hb))

pub clear_ack-IsAccepted : Ensures IsAccepted Decode.clear_ack
unfolding Decode.clear_ack
clear_ack-IsAccepted =
    Ensures-bind_with _ _ (take-length 16)
      λ id hi. Ensures-bind _ _ λ n. Ensures-bind _ _ λ e. Ensures-pure _ hi
