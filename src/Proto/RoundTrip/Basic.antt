-- ===== src/Proto/RoundTrip/Basic.antt =====
-- Shared steps of the round trips of crates/syntra-proto: what a successful encoding says of its
-- checks, and the reads at the end of a message.
use syntra.Prelude.{ℕ, ◌<◌, ◌^◌, ◌≡◌, refl, Bool, false, ◌++◌, arith, ◌==◌}
use syntra.Proto.Error.{Bytes, Result, ok, err, ok-injective, fail_if, ◌>>=◌, ◌>>◌, ProtocolError}
use syntra.Proto.Wire.{put_u64, ◌>>=◌ as bind}
use syntra.Proto.Wire.Scalars.{get_u64-put}
use syntra.Proto.Decode.Profile.{get_nonzero_request_id}
use syntra.Proto.Decode.Clipboard.{get_nonzero_file_id}
use syntra.Proto.Decode.Manual.{get_nonzero_transfer_id}

abbrev pub IsU8 : ℕ → Type 0
IsU8 n = n < 2 ^ 8

abbrev pub IsU32 : ℕ → Type 0
IsU32 n = n < 2 ^ 32

abbrev pub IsU64 : ℕ → Type 0
IsU64 n = n < 2 ^ 64

-- A check that passed, and what came after it.
pub >>-eq-ok {ℓ} :
    {B : Type ℓ} (m : Result (Unit {0})) (k : Result B) {b : B}
    → (m >> k) ≡ ok b
    → (m ≡ ok tt) × (k ≡ ok b)
>>-eq-ok (ok tt) k h = (refl, h)
>>-eq-ok (err e) k h = cc

-- The last check of an encoder, and the bytes that it writes.
pub checked :
    (m : Result (Unit {0})) (bytes : Bytes) {out : Bytes}
    → (m >> ok bytes) ≡ ok out
    → (m ≡ ok tt) × (bytes ≡ out)
checked m bytes h = let (e, q) = >>-eq-ok m (ok bytes) h in (e, ok-injective q)

pub >>=-eq-ok {ℓ κ} :
    {S : Type ℓ} {T : Type κ} (first : Result S) (next : S → Result T) {out : T}
    → (first >>= next) ≡ ok out
    → (value : S) × (first ≡ ok value) × (next value ≡ ok out)
>>=-eq-ok (err reason) next returned = cc
>>=-eq-ok (ok value) next returned = (value, refl, returned)

-- The same, where the bytes use what the last step returned.
pub bound {ℓ} :
    {A : Type ℓ} (m : Result A) (bytes : A → Bytes) {out : Bytes}
    → (m >>= λ a. ok (bytes a)) ≡ ok out
    → (a : A) × (m ≡ ok a) × (bytes a ≡ out)
bound (ok a) bytes h = (a, refl, ok-injective h)
bound (err e) bytes h = cc

pub fail_if-eq-ok : (t : Bool) (e : ProtocolError) → fail_if t e ≡ ok tt → t ≡ false
fail_if-eq-ok t e h = ground arith

-- The reads of an id that must not be zero.
module _ (rest : Bytes) (v : ℕ) (fits : IsU64 v) (pos : (v == 0) ≡ false) where
  pub get_nonzero_request_id-put : get_nonzero_request_id (put_u64 v ++ rest) ≡ ok (v, rest)
  unfolding get_nonzero_request_id bind
  get_nonzero_request_id-put = rw (get_u64-put rest v fits, pos)

  pub get_nonzero_file_id-put : get_nonzero_file_id (put_u64 v ++ rest) ≡ ok (v, rest)
  unfolding get_nonzero_file_id bind
  get_nonzero_file_id-put = rw (get_u64-put rest v fits, pos)

  pub get_nonzero_transfer_id-put : get_nonzero_transfer_id (put_u64 v ++ rest) ≡ ok (v, rest)
  unfolding get_nonzero_transfer_id bind
  get_nonzero_transfer_id-put = rw (get_u64-put rest v fits, pos)
