-- ===== src/Clients/Refinement.antt =====
-- crates/syntra-core/src/client.rs: the table of clients behaves as a function from handles to clients.
use syntra.Prelude.{
  ℕ, ◌*◌, ◌/◌, ◌-◌, ◌==◌, min, Bool, true, Option, none, if◌then◌else◌, Bool-cases, inl, inr, ◌+◌,
  ◌≤◌, ◌<◌, ◌^◌, ◌≡◌, refl, ap, subst, ◌∙◌, false, some, List, [], ◌∷◌, arith, leb, length,
}
use syntra.Clients.Entry.{
  Client, default_client, same_position, same_text, with_ips, with_fix_ips, with_dns_ips,
  with_hostname, with_pos, with_round_trip, with_port, with_alive, SocketAddr, move_port, capped,
  smooth_round_trip,
}
use syntra.Clients.Manager.{
  ClientManager, ConfigClient, config_of, state_of, insert, configure, add_client, add_with_config,
  set_config, set_state, activate_client, deactivate_client, update_ips, set_fix_ips, set_dns_ips,
  set_port, set_enter_hook, set_resolving, set_active_addr, set_alive, record_round_trip,
  set_remote_ready, set_peer_commit,
}
use syntra.Clients.Maps.{IsSorted, map_option}
use syntra.Clients.RoundTrip.{capped_lem}
use syntra.Clients.Calls.{
  Call, add, add_with, remove, activate, deactivate, config, state, fingerprint, fix_ips, dns_ips,
  hostname, enter_hook, peer_commit, port, round_trip, pos, active_addr, resolving, alive,
  remote_ready, step, run, Change, at, new, gone, View, apply, averaged, meaning, meanings,
}
use syntra.Clients.Changes.{
  view, Shows, update-Shows, as_change, update_twice, change_if-Shows, set_hostname-Shows,
  set_pos-Shows,
}
use syntra.Clients.Additions.{
  if_not, activated, deactivated, added-Shows, fingerprint-Shows, configure-Shows, add_with-Shows,
  remove_client-Shows,
}

-- A call that is made, and what it comes to.
pub record Made (call : Call) (m t : ClientManager) : Type 0 where
  pub returns : step call m ≡ some t
  pub shows : Shows t (apply (meaning call) (view m))

add_client-Made :
    (m : ClientManager)
    → IsSorted 0 m.clients
    → m.next_handle < 2 ^ 63
    → (t : ClientManager) × Made add m t
unfolding step add_client meaning
add_client-Made m s room =
    let left : leb (2 ^ 63) m.next_handle ≡ false = ground arith in
    (
      record m {
        next_handle = m.next_handle + 1;
        clients = insert m.clients m.next_handle default_client;
      },
      record { returns = rw (left) refl; shows = added-Shows m s },
    )

add_with-Made :
    (c : ConfigClient) (m : ClientManager)
    → IsSorted 0 m.clients
    → m.next_handle < 2 ^ 63
    → (t : ClientManager) × Made (add_with c) m t
unfolding step add_with_config add_client meaning view
add_with-Made c m s room =
    let left : leb (2 ^ 63) m.next_handle ≡ false = ground arith in
    let added : ClientManager = record m {
      next_handle = m.next_handle + 1;
      clients = insert m.clients m.next_handle default_client;
    } in
    let a = added-Shows m s in
    let g : Client → Client = λ x. record { config = config_of c; state = state_of c } in
    let t = configure-Shows c added m.next_handle a.sorted in
    (
      configure c added m.next_handle,
      record {
        returns = rw (left) refl;
        shows = record {
          shown = t.shown ∙ (ap (λ v. apply (at m.next_handle g) v) a.shown ∙ add_with-Shows c m);
          sorted = t.sorted;
        };
      },
    )

-- What the code does to a client, and what the call means for it.
moved_addr :
    (n : ℕ) (a : Option SocketAddr)
    → move_port n a ≡ map_option (λ (x : SocketAddr). record { ip = x.ip; port = n }) a
moved_addr n none = refl
moved_addr n (some a) = refl

moved :
    (n : ℕ) (c : Client)
    → with_port n c ≡ (
        if c.config.port == n then c else record {
          config = record c.config { port = n };
          state = record c.state {
            active_addr =
                map_option (λ (a : SocketAddr). record { ip = a.ip; port = n }) c.state.active_addr;
          };
        })
unfolding with_port
moved n c = elim (Bool-cases (c.config.port == n)) [
  | inl t ↦ rw (t) refl
  | inr f ↦ rw (f, moved_addr n c.state.active_addr) refl
]

smooth_round_trip-averaged :
    (o : Option ℕ) (n : ℕ) → smooth_round_trip o n ≡ averaged o (min n (2 ^ 32 - 1))
unfolding smooth_round_trip averaged
smooth_round_trip-averaged none n = capped_lem n
smooth_round_trip-averaged (some p) n =
    omega (arith, capped_lem n, capped_lem ((p * 3 + capped n) / 4))

averaged-Client :
    (n : ℕ) (c : Client)
    → with_round_trip n c ≡ record c {
      state = record c.state {
        round_trip_us = some (averaged c.state.round_trip_us (min n (2 ^ 32 - 1)));
      };
    }
unfolding with_round_trip
averaged-Client n c = rw (smooth_round_trip-averaged c.state.round_trip_us n) refl

alive-Client :
    (b : Bool) (c : Client)
    → with_alive b c ≡ record c {
      state = record c.state {
        alive = b;
        round_trip_us = if b then c.state.round_trip_us else none;
      };
    }
unfolding with_alive
alive-Client true c = refl
alive-Client false c = refl

step-Made :
    (call : Call) (m : ClientManager)
    → IsSorted 0 m.clients
    → m.next_handle < 2 ^ 63
    → (t : ClientManager) × Made call m t
unfolding step meaning activate_client deactivate_client set_config set_state set_fix_ips
    set_dns_ips update_ips set_port set_enter_hook set_resolving set_active_addr set_alive
    record_round_trip set_remote_ready set_peer_commit with_ips with_fix_ips with_dns_ips
    with_hostname with_pos with_round_trip
step-Made add m s room = add_client-Made m s room
step-Made (add_with c) m s room = add_with-Made c m s room
step-Made (remove h) m s room = (_, record { returns = refl; shows = remove_client-Shows m h s })
step-Made (activate h) m s room = (
  _,
  record {
    returns = refl;
    shows = as_change _ _ _ h (view m) (change_if-Shows _ _ m h s) activated;
  },
)
step-Made (deactivate h) m s room = (
  _,
  record {
    returns = refl;
    shows = as_change _ _ _ h (view m) (change_if-Shows _ _ m h s) deactivated;
  },
)
step-Made (config g h) m s room = (_, record { returns = refl; shows = update-Shows _ m h s })
step-Made (state t h) m s room = (_, record { returns = refl; shows = update-Shows _ m h s })
step-Made (fingerprint f h) m s room =
    (_, record { returns = refl; shows = fingerprint-Shows f m h s })
step-Made (fix_ips ips h) m s room =
    (_, record { returns = refl; shows = update_twice (with_fix_ips ips) with_ips m h s })
step-Made (dns_ips ips h) m s room =
    (_, record { returns = refl; shows = update_twice (with_dns_ips ips) with_ips m h s })
step-Made (hostname name h) m s room = (
  _,
  record {
    returns = refl;
    shows =
        as_change _ _ _ h (view m) (set_hostname-Shows name m h s)
          (λ c. if_not (same_text c.config.hostname name) _ _);
  },
)
step-Made (pos p h) m s room = (
  _,
  record {
    returns = refl;
    shows =
        as_change _ _ _ h (view m) (set_pos-Shows p m h s)
          (λ c. if_not (same_position c.config.pos p) _ _);
  },
)
step-Made (enter_hook hook h) m s room =
    (_, record { returns = refl; shows = update-Shows _ m h s })
step-Made (peer_commit commit h) m s room =
    (_, record { returns = refl; shows = update-Shows _ m h s })
step-Made (port n h) m s room = (
  _,
  record { returns = refl; shows = as_change _ _ _ h (view m) (update-Shows _ m h s) (moved n) },
)
step-Made (round_trip n h) m s room = (
  _,
  record {
    returns = refl;
    shows = as_change _ _ _ h (view m) (update-Shows _ m h s) (averaged-Client n);
  },
)
step-Made (active_addr a h) m s room = (_, record { returns = refl; shows = update-Shows _ m h s })
step-Made (resolving b h) m s room = (_, record { returns = refl; shows = update-Shows _ m h s })
step-Made (alive b h) m s room = (
  _,
  record {
    returns = refl;
    shows = as_change _ _ _ h (view m) (update-Shows _ m h s) (alive-Client b);
  },
)
step-Made (remote_ready b h) m s room = (_, record { returns = refl; shows = update-Shows _ m h s })

pub apply-next :
    (change : Change) (v : View) → (v.1 ≤ (apply change v).1) × ((apply change v).1 ≤ v.1 + 1)
unfolding apply
apply-next (at h f) v = (omega arith, omega arith)
apply-next (new c) v = (omega arith, omega arith)
apply-next (gone h) v = (omega arith, omega arith)

-- While handles are left, no call panics, and a table that is in order shows after any calls what they
-- mean for each handle: at the handle that a call names, the client is changed as the call says, an added
-- client is found under the next handle, a removed one is not found, and no other client is touched.
pub run-Shows :
    (calls : List Call) (m : ClientManager)
    → IsSorted 0 m.clients
    → m.next_handle + length calls ≤ 2 ^ 63
    → (t : ClientManager) × (run calls m ≡ some t) × Shows t (meanings calls (view m))
unfolding run meanings view
run-Shows [] m s room = (m, refl, record { shown = refl; sorted = s })
run-Shows (call ∷ calls) m s room =
    let (t, made) = step-Made call m s (omega arith) in
    let next : t.next_handle ≡ (apply (meaning call) (view m)).1 = ap (λ v. v.1) made.shows.shown in
    let few = (apply-next (meaning call) (view m)).1 in
    let (u, returns, shows) = run-Shows calls t made.shows.sorted (omega (arith, next, few)) in
    (
      u,
      rw (run, made.returns) returns,
      subst (λ v. Shows u (meanings calls v)) made.shows.shown shows,
    )
