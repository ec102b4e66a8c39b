-- ===== src/Proto/Accepted/Rules.antt =====
-- Postconditions of the decoders of crates/syntra-proto: one rule for each way to build a decoder.
use syntra.Prelude.{
  ℕ, ◌≡◌, ◌<◌, ◌==◌, ◌∙◌, refl, ap, subst, sym, Bool, true, false, Bool-cases, inl, inr, arith,
  length, length-take,
}
use syntra.Proto.Error.{Bytes, Result, ok, err, ok-injective, fail_if, ProtocolError}
use syntra.Proto.Wire.{Decoder, pure, lift, take, from_utf8, continue, ◌>>=◌}
use syntra.Proto.Wire.Utf8.{is_utf8}
use syntra.Proto.RoundTrip.Basic.{fail_if-eq-ok}
use syntra.Proto.Decode.Profile.{get_nonzero_request_id}
use syntra.Proto.Decode.Clipboard.{get_nonzero_file_id}
use syntra.Proto.Decode.Manual.{get_nonzero_transfer_id}

-- Whatever `m` returns, on any buffer, satisfies `P`.
pub record Ensures {ℓ κ} {A : Type ℓ} (P : A → Type κ) (m : Decoder A) : Type (ℓ ⊔ κ) where
  pub at : (buf rest : Bytes) (a : A) → m buf ≡ ok (a, rest) → P a

module _ {ℓ κ} {A : Type ℓ} {P : A → Type κ} where
  pub Ensures-pure : (a : A) → P a → Ensures P (pure a)
  unfolding pure
  Ensures-pure a p = record {
    at = λ buf rest b e. subst P (ap (λ (q : A × Bytes). q.0) (ok-injective e)) p;
  }

module _ {ℓ κ μ} {A : Type ℓ} {B : Type κ} {P : B → Type μ} where
  pub Ensures-bind :
      (m : Decoder A) (f : A → Decoder B) → ((a : A) → Ensures P (f a)) → Ensures P (m >>= f)
  unfolding ◌>>=◌
  Ensures-bind m f h = record { at = λ buf rest b e. go rest b (m buf) e }
    where
      go : (rest : Bytes) (b : B) (r : Result (A × Bytes)) → continue f r ≡ ok (b, rest) → P b
      go rest b (ok (a, more)) e = (h a).at more rest b e
      go rest b (err x) e = cc

  -- The value read satisfies `Q`.
  pub Ensures-bind_with {ν} :
      {Q : A → Type ν} (m : Decoder A) (f : A → Decoder B)
      → Ensures Q m
      → ((a : A) → Q a → Ensures P (f a))
      → Ensures P (m >>= f)
  unfolding ◌>>=◌
  Ensures-bind_with {Q = Q} m f q h = record { at = λ buf rest b e. go buf rest b (m buf) refl e }
    where
      go :
          (buf rest : Bytes) (b : B) (r : Result (A × Bytes))
          → m buf ≡ r
          → continue f r ≡ ok (b, rest)
          → P b
      go buf rest b (ok (a, more)) s e = (h a (q.at buf more a s)).at more rest b e
      go buf rest b (err x) s e = cc

  -- The rest may use that the check passed, and what it returned.
  pub Ensures-lift :
      (r : Result A) (f : A → Decoder B)
      → ((a : A) → r ≡ ok a → Ensures P (f a))
      → Ensures P (lift r >>= f)
  unfolding ◌>>=◌
  Ensures-lift (ok a) f h = record { at = λ buf rest b e. (h a refl).at buf rest b e }
  Ensures-lift (err x) f h = record { at = λ buf rest b e. cc }

pub Ensures-check {μ κ} :
    {B : Type κ} {P : B → Type μ} (t : Bool) (x : ProtocolError) (k : Decoder B)
    → (t ≡ false → Ensures P k)
    → Ensures P (lift (fail_if t x) >>= λ _. k)
Ensures-check t x k h =
    Ensures-lift (fail_if t x) _ (λ u e. h (fail_if-eq-ok t x (e ∙ ap ok (unit u))))
  where
    unit : (u : Unit {0}) → u ≡ tt
    unit tt = refl

nonzero : (n : ℕ) → (n == 0) ≡ false → 0 < n
nonzero n h = ground arith

pub get_nonzero_request_id-pos : Ensures (λ n. 0 < n) get_nonzero_request_id
unfolding get_nonzero_request_id
get_nonzero_request_id-pos =
    Ensures-bind _ _ (λ n. Ensures-check _ _ _ (λ h. Ensures-pure n (nonzero n h)))

pub get_nonzero_file_id-pos : Ensures (λ n. 0 < n) get_nonzero_file_id
unfolding get_nonzero_file_id
get_nonzero_file_id-pos =
    Ensures-bind _ _ (λ n. Ensures-check _ _ _ (λ h. Ensures-pure n (nonzero n h)))

pub get_nonzero_transfer_id-pos : Ensures (λ n. 0 < n) get_nonzero_transfer_id
unfolding get_nonzero_transfer_id
get_nonzero_transfer_id-pos =
    Ensures-bind _ _ (λ n. Ensures-check _ _ _ (λ h. Ensures-pure n (nonzero n h)))

-- `take n` returns n bytes.
pub take-length : (n : ℕ) → Ensures (λ bytes. length bytes ≡ n) (take n)
unfolding take
take-length n = record { at = λ buf rest bytes e. ground (arith, length-take n buf) }

-- A check returns the one value of `Unit`.
pub passed : (u : Unit {0}) → ok u ≡ ok tt
passed tt = refl

pub from_utf8-eq-ok :
    (bytes text : Bytes) (x : ProtocolError)
    → from_utf8 bytes x ≡ ok text
    → (bytes ≡ text) × (is_utf8 text ≡ true)
unfolding from_utf8
from_utf8-eq-ok bytes text x e = elim (Bool-cases (is_utf8 bytes)) [
  | inl h ↦ let q = ok-injective (rw h at e) in (q, ap is_utf8 (sym q) ∙ h)
  | inr h ↦ absurd_err (rw h at e)
]
  where
    absurd_err : err x ≡ ok text → (bytes ≡ text) × (is_utf8 text ≡ true)
    absurd_err k = cc
