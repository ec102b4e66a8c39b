-- ===== src/Proto/Error.antt =====
-- crates/syntra-proto/src/lib.rs: `ProtocolError`, and results that may carry it.
use syntra.Prelude.{ℕ, String, List, ◌≡◌, Bool, true, false}

-- Bytes are numbers below 256; a Rust `String` is the list of its UTF-8 bytes.
abbrev pub Bytes : Type 0
Bytes = List ℕ

pub data ProtocolError : Type 0 where
  invalid_event_id invalid_position : ℕ → ProtocolError
  truncated : ProtocolError
  too_large : (actual limit : ℕ) → ProtocolError
  invalid_chunk_count : (expected actual : ℕ) → ProtocolError
  invalid_path : Bytes → ProtocolError
  invalid_manifest : String → ProtocolError
  length_overflow : ProtocolError
  invalid_progress : (completed total : ℕ) → ProtocolError
  trailing_bytes : ℕ → ProtocolError
  invalid_boolean invalid_cancel_reason : ℕ → ProtocolError
  invalid_file_chunk invalid_history invalid_profile : String → ProtocolError

-- `Result<T, ProtocolError>`
pub data Result {ℓ} (T : Type ℓ) : Type ℓ where
  err : (reason : ProtocolError) → Result T
  ok : (value : T) → Result T

-- `if test { return Err(reason) }`
abbrev pub fail_if : Bool → ProtocolError → Result (Unit {0})
fail_if false reason = ok tt
fail_if true reason = err reason

-- The `?` operator.
module _ {ℓ κ} {S : Type ℓ} {T : Type κ} where
  infixl 5 ◌>>=◌
  abbrev pub ◌>>=◌ : Result S → (S → Result T) → Result T
  err reason >>= next = err reason
  ok value >>= next = next value

module _ {κ} {T : Type κ} where
  infixl 5 ◌>>◌
  abbrev pub ◌>>◌ : Result (Unit {0}) → Result T → Result T
  check >> next = check >>= λ passed. next

pub ok-injective {ℓ} : {A : Type ℓ} {a b : A} → ok a ≡ ok b → a ≡ b
ok-injective e = cc
