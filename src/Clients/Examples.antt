-- ===== src/Clients/Examples.antt =====
-- `ClientManager` of crates/syntra-core/src/client.rs with a few devices.
use syntra.Prelude.{
  ℕ, ◌+◌, ◌-◌, ◌*◌, ◌≤◌, ◌≡◌, true, false, some, List, [], ◌∷◌, ◌++◌, arith, min, max, codes, any,
  bytes_eq, ◌&&◌,
}
use syntra.Proto.Error.{Bytes}
use syntra.Clients.Entry.{Client, default_client, smooth_round_trip}
use syntra.Clients.Manager.{ClientManager, lookup, contains, default, get_client}
use syntra.Clients.Maps.{IsSorted}
use syntra.Clients.Calls.{Call, add, remove, activate, fix_ips, run, meanings}
use syntra.Clients.Changes.{view, Shows}
use syntra.Clients.Refinement.{run-Shows}
use syntra.Clients.Handles.{removed_handle}
use syntra.Clients.Addresses.{IsPlain, ips_union}
use syntra.Clients.RoundTrip.{smooth_round_trip-between}
use syntra.Clients.Routes.{IsFirst, get_client-IsFirst}

abbrev home : Bytes
home = codes "10.0.0.2"

abbrev calls : List Call
calls = add ∷ fix_ips (home ∷ []) 0 ∷ activate 0 ∷ add ∷ remove 0 ∷ []

run-Shows_example :
    (t : ClientManager) × (run calls default ≡ some t) × Shows t (meanings calls (view default))
unfolding default IsSorted
run-Shows_example = run-Shows calls default tt (omega arith)

abbrev at_home : Client
at_home = record default_client {
  state = record default_client.state { active = true; ips = home ∷ [] };
}

abbrev two : ClientManager
two = record {
  clients = (0, default_client) ∷ (1, at_home) ∷ [];
  next_handle = 2;
  peer_fingerprints = [];
}

two-IsSorted : IsSorted 0 two.clients
unfolding IsSorted
two-IsSorted = (omega arith, (omega arith, tt))

removed_handle_example :
    (t : ClientManager) × (run (remove 1 ∷ add ∷ activate 1 ∷ []) two ≡ some t)
    × (contains t 1 ≡ false)
removed_handle_example =
    removed_handle (add ∷ activate 1 ∷ []) two 1 two-IsSorted (omega arith) (omega arith)

ips_union_example :
    (t : ClientManager) × (run calls default ≡ some t)
    × ((k : ℕ) (c : Client)
        → lookup t.clients k ≡ some c
        → c.state.ips ≡ c.config.fix_ips ++ c.state.dns_ips)
unfolding IsPlain
ips_union_example = ips_union calls ((tt, (tt, (tt, (tt, (tt, tt)))))) (omega arith)

smooth_round_trip-between_example :
    (min 100 (min 500 4_294_967_295) ≤ smooth_round_trip (some 100) 500)
    × (smooth_round_trip (some 100) 500 ≤ max 100 (min 500 4_294_967_295))
    × (4 * (smooth_round_trip (some 100) 500 - min 500 4_294_967_295)
        ≤ 3 * (100 - min 500 4_294_967_295))
    × (4 * (min 500 4_294_967_295 - smooth_round_trip (some 100) 500)
        ≤ 3 * (min 500 4_294_967_295 - 100) + 3)
    × (3 * (100 - min 500 4_294_967_295)
        ≤ 4 * (smooth_round_trip (some 100) 500 - min 500 4_294_967_295) + 3)
    × (3 * (min 500 4_294_967_295 - 100)
        ≤ 4 * (min 500 4_294_967_295 - smooth_round_trip (some 100) 500))
smooth_round_trip-between_example = smooth_round_trip-between 100 500 (omega arith)

get_client-IsFirst_example :
    IsFirst
      (λ c. c.state.active && any (λ ip. bytes_eq ip home) c.state.ips)
      (λ k. lookup two.clients k)
      (get_client two (record { ip = home; port = 4242 }))
get_client-IsFirst_example = get_client-IsFirst two (record { ip = home; port = 4242 }) two-IsSorted
