-- ===== src/Clients/Routes.antt =====
-- crates/syntra-core/src/client.rs: which client an address or a side of the screen belongs to.
use syntra.Prelude.{
  ℕ, ◌+◌, ◌<◌, ◌≡◌, refl, Bool, true, false, false≢true, Option, none, some, List, [], ◌∷◌, arith,
  ◌==◌, if◌then◌else◌, Bool-cases, inl, inr, any, bytes_eq, ◌&&◌,
}
use syntra.Clients.Entry.{Client, SocketAddr, Position, same_position}
use syntra.Clients.Manager.{ClientManager, lookup, holds, first_with, get_client, client_at}
use syntra.Clients.Maps.{IsSorted, lookup_below}

-- The answer is the first handle whose client passes the test, or there is none.
unfoldable pub IsFirst : (Client → Bool) → (ℕ → Option Client) → Option ℕ → Type 0
IsFirst test clients none = (k : ℕ) → holds test (clients k) ≡ false
IsFirst test clients (some h) =
    (holds test (clients h) ≡ true) × ((k : ℕ) → k < h → holds test (clients k) ≡ false)

first_with-IsFirst :
    (test : Client → Bool) (entries : List (ℕ × Client)) (bound : ℕ)
    → IsSorted bound entries
    → IsFirst test (λ k. lookup entries k) (first_with test entries)
unfolding IsFirst IsSorted lookup first_with holds
first_with-IsFirst test [] bound s = λ k. refl
first_with-IsFirst test ((h, c) ∷ entries) bound (le, s) = elim (Bool-cases (test c)) [
  | inl t ↦
      let same : (h == h) ≡ true = ground arith in
      rw (t) (
        (
          rw (same) t,
          λ k lt.
              let other : (h == k) ≡ false = ground arith in
              rw (other, lookup_below entries (h + 1) k s (omega arith)) refl,
        ))
  | inr f ↦ rw (f) (later f (first_with test entries) (first_with-IsFirst test entries (h + 1) s))
]
  where
    before :
        (k : ℕ)
        → test c ≡ false
        → holds test (lookup entries k) ≡ false
        → holds test (if h == k then some c else lookup entries k) ≡ false
    before k f rest = elim (Bool-cases (h == k)) [ inl t ↦ rw (t) f | inr n ↦ rw (n) rest ]

    later :
        test c ≡ false
        → (o : Option ℕ) → IsFirst test (λ k. lookup entries k) o
        → IsFirst test (λ k. lookup ((h, c) ∷ entries) k) o
    later f none first = λ k. before k f (first k)
    later f (some k) (found, first) = elim (Bool-cases (h == k)) [
      | inl t ↦
          let absent = lookup_below entries (h + 1) k s (ground arith) in
          absurd (false≢true (rw absent at found))
      | inr n ↦ (rw (n) found, λ j lt. before j f (first j lt))
    ]

-- A table in order sends what comes from an address to the first client that is active and has the
-- address, and to none exactly if no client is active and has it.
pub get_client-IsFirst :
    (m : ClientManager) (addr : SocketAddr)
    → IsSorted 0 m.clients
    → IsFirst
        (λ c. c.state.active && any (λ ip. bytes_eq ip addr.ip) c.state.ips)
        (λ k. lookup m.clients k)
        (get_client m addr)
unfolding get_client
get_client-IsFirst m addr s =
    first_with-IsFirst (λ c. c.state.active && any (λ ip. bytes_eq ip addr.ip) c.state.ips)
      m.clients 0 s

-- The client at a side of the screen is the first active one that is set there, if there is one.
pub client_at-IsFirst :
    (m : ClientManager) (pos : Position)
    → IsSorted 0 m.clients
    → IsFirst
        (λ c. c.state.active && same_position c.config.pos pos)
        (λ k. lookup m.clients k)
        (client_at m pos)
unfolding client_at
client_at-IsFirst m pos s =
    first_with-IsFirst (λ c. c.state.active && same_position c.config.pos pos) m.clients 0 s
