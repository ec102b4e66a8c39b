-- ===== src/Clients/RoundTrip.antt =====
-- crates/syntra-core/src/client.rs: smooth_round_trip.
use syntra.Prelude.{ℕ, ◌+◌, ◌-◌, ◌*◌, ◌/◌, ◌≤◌, ◌<◌, ◌^◌, ◌≡◌, some, arith, min, max}
use syntra.Clients.Entry.{smooth_round_trip, capped}

pub capped_lem : (x : ℕ) → capped x ≡ min x (2 ^ 32 - 1)
unfolding capped
capped_lem x = ground arith

-- The smoothed round trip lies between the one before and the sample, capped to 32 bits, and so has 32
-- bits; and its distance to the sample is three quarters of what it was, rounded down where the sample is
-- smaller and up where it is larger.
pub smooth_round_trip-between :
    (previous sample : ℕ)
    → previous < 2 ^ 32
    → (min previous (min sample (2 ^ 32 - 1)) ≤ smooth_round_trip (some previous) sample)
      × (smooth_round_trip (some previous) sample ≤ max previous (min sample (2 ^ 32 - 1)))
      × (4 * (smooth_round_trip (some previous) sample - min sample (2 ^ 32 - 1))
          ≤ 3 * (previous - min sample (2 ^ 32 - 1)))
      × (4 * (min sample (2 ^ 32 - 1) - smooth_round_trip (some previous) sample)
          ≤ 3 * (min sample (2 ^ 32 - 1) - previous) + 3)
      × (3 * (previous - min sample (2 ^ 32 - 1))
          ≤ 4 * (smooth_round_trip (some previous) sample - min sample (2 ^ 32 - 1)) + 3)
      × (3 * (min sample (2 ^ 32 - 1) - previous)
          ≤ 4 * (min sample (2 ^ 32 - 1) - smooth_round_trip (some previous) sample))
unfolding smooth_round_trip
smooth_round_trip-between previous sample small =
    let s = capped_lem sample in
    let r = capped_lem ((previous * 3 + capped sample) / 4) in
    (
      omega (arith, s, r),
      omega (arith, s, r),
      omega (arith, s, r),
      omega (arith, s, r),
      omega (arith, s, r),
      omega (arith, s, r),
    )
