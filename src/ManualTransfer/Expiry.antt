-- ===== src/ManualTransfer/Expiry.antt =====
-- crates/syntra-core/src/manual_transfer.rs: a transfer from which nothing is heard ends.
use syntra.Prelude.{
  ℕ, ◌+◌, ◌-◌, ◌≤◌, ◌<◌, ◌≡◌, refl, true, false, ◌||◌, List, [], ◌∷◌, arith, leb, length, ◌⊎◌, inl,
  inr, Bool-cases, subst, sym, All,
}
use syntra.ManualTransfer.Record.{
  Record, is_terminal, is_offering, is_awaiting, retry_timeout, max_retries, terminal,
}
use syntra.ManualTransfer.Clock.{tick_record, tick_active, tick_terminal, give_up, retried}

-- The record after a tick at each of the times.
unfoldable pub ticks : {P : Type 0} → List ℕ → Record P → Record P
ticks [] r = r
ticks (now ∷ times) r = ticks times (tick_record r now).0

-- Each time is a retry's interval after the one before.
unfoldable pub Spaced : ℕ → List ℕ → Type 0
Spaced last [] = Unit
Spaced last (now ∷ times) = (last + retry_timeout ≤ now) × Spaced now times

module _ {P : Type 0} where
  pub tick_ended :
      (r : Record P) (now : ℕ)
      → is_terminal r.state ≡ true
      → is_terminal (tick_record r now).0.state ≡ true
  unfolding tick_record tick_terminal
  tick_ended r now h = ground arith

  tick_silent :
      (r : Record P) (now : ℕ)
      → is_terminal r.state ≡ false
      → r.approval_deadline ≤ now
      → r.last_activity + retry_timeout ≤ now
      → (is_terminal (tick_record r now).0.state ≡ true)
        ⊎ ((r.retries < max_retries) × ((tick_record r now).0 ≡ retried r now))
  unfolding tick_record tick_active give_up terminal
  tick_silent r now alive late quiet =
      let expired : leb r.approval_deadline now ≡ true = ground arith in
      let again : leb retry_timeout (now - r.last_activity) ≡ true = ground arith in
      elim (Bool-cases (leb max_retries r.retries)) [
        | inl t ↦ inl (ground arith)
        | inr f ↦ elim (Bool-cases (is_offering r.state || is_awaiting r.state)) [
          | inl a ↦ inl (rw (alive, a, expired) refl)
          | inr b ↦
              let waits : is_awaiting r.state ≡ false = ground arith in
              inr (ground arith, rw (alive, b, waits, again, f) refl)
        ]
      ]

  ticks_ended :
      (times : List ℕ) (r : Record P)
      → is_terminal r.state ≡ true
      → is_terminal (ticks times r).state ≡ true
  unfolding ticks
  ticks_ended [] r h = h
  ticks_ended (now ∷ times) r h = ticks_ended times (tick_record r now).0 (tick_ended r now h)

  -- A transfer that has made at most all its retries has ended after more ticks than it
  -- has retries left, when nothing else happens, the ticks
  -- come at intervals of a retry's time from its last activity on, and none before its approval deadline.
  pub ticks_end :
      (times : List ℕ) (r : Record P)
      → r.retries ≤ max_retries
      → max_retries < r.retries + length times
      → Spaced r.last_activity times
      → All (λ now. r.approval_deadline ≤ now) times
      → is_terminal (ticks times r).state ≡ true
  unfolding ticks Spaced
  ticks_end [] r few enough spaced late = absurd (omega arith)
  ticks_end (now ∷ times) r few enough (quiet, spaced) (after, late) =
      elim (Bool-cases (is_terminal r.state)) [
        | inl t ↦ ticks_ended times (tick_record r now).0 (tick_ended r now t)
        | inr f ↦ elim (tick_silent r now f after quiet) [
          | inl ended ↦ ticks_ended times (tick_record r now).0 ended
          | inr (left, q) ↦
              subst (λ x. is_terminal (ticks times x).state ≡ true) (sym q)
                (ticks_end times (retried r now) (omega arith) (omega arith) spaced late)
        ]
      ]
