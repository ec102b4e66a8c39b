-- ===== src/Clients/Calls.antt =====
-- crates/syntra-core/src/client.rs: every call that changes the table of clients, and what each one means
-- for the client of a handle.
use syntra.Prelude.{
  ◌*◌, ◌/◌, ◌-◌, ◌^◌, min, ℕ, ◌+◌, Bool, true, false, Option, none, some, List, [], ◌∷◌, ◌++◌, ◌==◌,
  if◌then◌else◌,
}
use syntra.Proto.Error.{Bytes}
use syntra.Clients.Entry.{
  Position, SocketAddr, ClientConfig, ClientState, Client, default_client, same_position, same_text,
}
use syntra.Clients.Manager.{
  ClientManager, ConfigClient, config_of, state_of, add_client, add_with_config, set_config,
  set_state, set_peer_fingerprint, remove_client, activate_client, deactivate_client, set_fix_ips,
  set_dns_ips, set_hostname, set_port, set_pos, set_enter_hook, set_resolving, set_active_addr,
  set_alive, record_round_trip, set_remote_ready, set_peer_commit,
}
use syntra.Clients.Maps.{map_option}

pub data Call : Type 0 where
  add : Call
  add_with : ConfigClient → Call
  remove activate deactivate : (handle : ℕ) → Call
  config : ClientConfig → (handle : ℕ) → Call
  state : ClientState → (handle : ℕ) → Call
  fingerprint : Bytes → (handle : ℕ) → Call
  fix_ips dns_ips : List Bytes → (handle : ℕ) → Call
  hostname enter_hook peer_commit : Option Bytes → (handle : ℕ) → Call
  port round_trip : (number handle : ℕ) → Call
  pos : Position → (handle : ℕ) → Call
  active_addr : Option SocketAddr → (handle : ℕ) → Call
  resolving alive remote_ready : Bool → (handle : ℕ) → Call

abbrev map_first : Option (ClientManager × ℕ) → Option ClientManager
map_first none = none
map_first (some (m, handle)) = some m

-- The manager after a call; `none` is the panic when the handles are used up.
unfoldable pub step : Call → ClientManager → Option ClientManager
step add m = map_first (add_client m)
step (add_with c) m = map_first (add_with_config c m)
step (remove h) m = some (remove_client m h).0
step (activate h) m = some (activate_client m h).0
step (deactivate h) m = some (deactivate_client m h).0
step (config c h) m = some (set_config c m h)
step (state s h) m = some (set_state s m h)
step (fingerprint f h) m = some (set_peer_fingerprint f m h)
step (fix_ips ips h) m = some (set_fix_ips ips m h)
step (dns_ips ips h) m = some (set_dns_ips ips m h)
step (hostname name h) m = some (set_hostname name m h).0
step (enter_hook hook h) m = some (set_enter_hook hook m h)
step (peer_commit commit h) m = some (set_peer_commit commit m h)
step (port number h) m = some (set_port number m h)
step (round_trip sample h) m = some (record_round_trip sample m h)
step (pos p h) m = some (set_pos p m h).0
step (active_addr addr h) m = some (set_active_addr addr m h)
step (resolving status h) m = some (set_resolving status m h)
step (alive status h) m = some (set_alive status m h)
step (remote_ready ready h) m = some (set_remote_ready ready m h)

-- All calls in turn, up to a panic.
unfoldable pub run : List Call → ClientManager → Option ClientManager
run [] m = some m
run (call ∷ calls) m = elim (step call m) [ none ↦ none | some t ↦ run calls t ]

-- What a call may do: change the client of one handle, give a client the next handle, or take the client
-- of one handle away.
pub data Change : Type 0 where
  at : (handle : ℕ) (change : Client → Client) → Change
  new : Client → Change
  gone : (handle : ℕ) → Change

-- The clients by their handles, and the next handle.
abbrev pub View : Type 0
View = (ℕ → Option Client) × ℕ

unfoldable pub apply : Change → View → View
apply (at h change) (clients, next) =
    ((λ k. if h == k then map_option change (clients k) else clients k), next)
apply (new client) (clients, next) = ((λ k. if next == k then some client else clients k), next + 1)
apply (gone h) (clients, next) = ((λ k. if h == k then none else clients k), next)

-- The first sample, and from then on the average in which a sample weighs a quarter.
unfoldable pub averaged : Option ℕ → ℕ → ℕ
averaged none sample = sample
averaged (some previous) sample = min ((3 * previous + sample) / 4) (2 ^ 32 - 1)

unfoldable pub meaning : Call → Change
meaning add = new default_client
meaning (add_with c) = new (record { config = config_of c; state = state_of c })
meaning (remove h) = gone h
meaning (activate h) = at h (λ c. record c { state = record c.state { active = true } })
meaning (deactivate h) = at h (λ c. record c { state = record c.state { active = false } })
meaning (config g h) = at h (λ c. record c { config = g })
meaning (state s h) = at h (λ c. record c { state = s })
meaning (fingerprint f h) = at h (λ c. c)
meaning (fix_ips ips h) = at h (λ c. record {
  config = record c.config { fix_ips = ips };
  state = record c.state { ips = ips ++ c.state.dns_ips };
})
meaning (dns_ips ips h) =
    at h (λ c. record c { state = record c.state { dns_ips = ips; ips = c.config.fix_ips ++ ips } })
meaning (hostname name h) = at h (λ c. if same_text c.config.hostname name then c else record {
  config = record c.config { hostname = name };
  state = record c.state { active_addr = none; dns_ips = []; ips = c.config.fix_ips ++ [] };
})
meaning (enter_hook hook h) = at h (λ c. record c { config = record c.config { cmd = hook } })
meaning (peer_commit commit h) =
    at h (λ c. record c { state = record c.state { peer_commit = commit } })
meaning (port number h) = at h (λ c. if c.config.port == number then c else record {
  config = record c.config { port = number };
  state = record c.state {
    active_addr =
        map_option (λ (a : SocketAddr). record { ip = a.ip; port = number }) c.state.active_addr;
  };
})
meaning (round_trip sample h) = at h (λ c. record c {
  state = record c.state {
    round_trip_us = some (averaged c.state.round_trip_us (min sample (2 ^ 32 - 1)));
  };
})
meaning (pos p h) = at h (λ c.
    if same_position c.config.pos p then c else record c { config = record c.config { pos = p } })
meaning (active_addr addr h) =
    at h (λ c. record c { state = record c.state { active_addr = addr } })
meaning (resolving status h) =
    at h (λ c. record c { state = record c.state { resolving = status } })
meaning (alive status h) = at h (λ c. record c {
  state = record c.state {
    alive = status;
    round_trip_us = if status then c.state.round_trip_us else none;
  };
})
meaning (remote_ready ready h) =
    at h (λ c. record c { state = record c.state { remote_ready = ready } })

unfoldable pub meanings : List Call → View → View
meanings [] view = view
meanings (call ∷ calls) view = meanings calls (apply (meaning call) view)
