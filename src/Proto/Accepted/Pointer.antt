-- ===== src/Proto/Accepted/Pointer.antt =====
-- What the pointer and keyboard arms of `decode` let through (crates/syntra-proto/src/lib.rs).
use syntra.Prelude.{ℕ, ◌≤◌, ◌≡◌, subst, true, false, arith, length, ltb}
use syntra.Proto.Error.{Bytes}
use syntra.Proto.Wire.Utf8.{is_utf8}
use syntra.Proto.Event.{ProtoEvent, Position}
use syntra.Proto.Accepted.Event.{IsAccepted, IsFraction}
use syntra.Proto.Accepted.Rules.{
  Ensures, Ensures-pure, Ensures-bind, Ensures-bind_with, Ensures-lift, Ensures-check,
  from_utf8-eq-ok, take-length,
}
use syntra.Proto.Decode.Pointer as Decode

pub motion-IsAccepted : Ensures IsAccepted Decode.motion
unfolding Decode.motion
motion-IsAccepted =
    Ensures-bind _ _ λ t. Ensures-bind _ _ λ x. Ensures-bind _ _ λ y. Ensures-pure _ tt

pub button-IsAccepted : Ensures IsAccepted Decode.button
unfolding Decode.button
button-IsAccepted =
    Ensures-bind _ _ λ t. Ensures-bind _ _ λ x. Ensures-bind _ _ λ y. Ensures-pure _ tt

pub axis-IsAccepted : Ensures IsAccepted Decode.axis
unfolding Decode.axis
axis-IsAccepted =
    Ensures-bind _ _ λ t. Ensures-bind _ _ λ x. Ensures-bind _ _ λ y. Ensures-pure _ tt

pub axis_value120-IsAccepted : Ensures IsAccepted Decode.axis_value120
unfolding Decode.axis_value120
axis_value120-IsAccepted = Ensures-bind _ _ λ x. Ensures-bind _ _ λ y. Ensures-pure _ tt

pub key-IsAccepted : Ensures IsAccepted Decode.key
unfolding Decode.key
key-IsAccepted = Ensures-bind _ _ λ t. Ensures-bind _ _ λ x. Ensures-bind _ _ λ y. Ensures-pure _ tt

pub modifiers-IsAccepted : Ensures IsAccepted Decode.modifiers
unfolding Decode.modifiers
modifiers-IsAccepted =
    Ensures-bind _ _
      λ d. Ensures-bind _ _ λ l. Ensures-bind _ _ λ k. Ensures-bind _ _ λ g. Ensures-pure _ tt

pub pong-IsAccepted : Ensures IsAccepted Decode.pong
unfolding Decode.pong
pong-IsAccepted = Ensures-bind _ _ λ b. Ensures-pure _ tt

pub enter-IsAccepted : Ensures IsAccepted Decode.enter
unfolding Decode.enter
enter-IsAccepted = Ensures-bind _ _ λ p. Ensures-pure _ tt

-- An event whose bounds hold of every number.
pub serial-IsAccepted :
    (event : ℕ → ProtoEvent)
    → ((n : ℕ) → IsAccepted (event n))
    → Ensures IsAccepted (Decode.serial event)
unfolding Decode.serial
serial-IsAccepted event h = Ensures-bind _ _ λ n. Ensures-pure _ (h n)

clamp_unit-IsFraction : (bits : ℕ) → IsFraction (Decode.clamp_unit bits)
unfolding Decode.clamp_unit
clamp_unit-IsFraction bits = ground arith

get_along-IsFraction : Ensures IsFraction Decode.get_along
unfolding Decode.get_along
get_along-IsFraction =
    Ensures-bind _ _ λ n. Ensures-check _ _ _ λ h. Ensures-pure _ (clamp_unit-IsFraction n)

pub leave_at-IsAccepted : Ensures IsAccepted Decode.leave_at
unfolding Decode.leave_at
leave_at-IsAccepted = Ensures-bind_with _ _ get_along-IsFraction λ n h. Ensures-pure _ h

pub enter_at-IsAccepted : Ensures IsAccepted Decode.enter_at
unfolding Decode.enter_at
enter_at-IsAccepted =
    Ensures-bind _ _ λ side. Ensures-bind_with _ _ get_along-IsFraction λ n h. Ensures-pure _ h

pub target-IsAccepted :
    (event : Position → Bytes → ProtoEvent)
    → ((side : Position) (t : Bytes)
        → (length t ≤ 128) × (is_utf8 t ≡ true)
        → IsAccepted (event side t))
    → Ensures IsAccepted (Decode.target event)
unfolding Decode.target
target-IsAccepted event h = Ensures-bind _ _ λ side. Ensures-bind _ _ λ n.
    Ensures-check _ _ _ λ short. Ensures-bind_with _ _ (take-length n) λ bytes hb.
      Ensures-lift _ _ λ text e.
        let (q, utf8) = from_utf8-eq-ok bytes text _ e in
        Ensures-pure _ (h side text (subst (λ s. length s ≤ 128) q (fits n bytes short hb), utf8))
  where
    fits : (n : ℕ) (bytes : Bytes) → ltb 128 n ≡ false → length bytes ≡ n → length bytes ≤ 128
    fits n bytes s e = ground arith

pub hello-IsAccepted : Ensures IsAccepted Decode.hello
unfolding Decode.hello
hello-IsAccepted = Ensures-bind_with _ _ (take-length 8) λ c h. Ensures-pure _ h
