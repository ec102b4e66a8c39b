-- ===== src/Clients/Manager.antt =====
-- crates/syntra-core/src/client.rs: `ClientManager`.
use syntra.Prelude.{
  ℕ, ◌+◌, ◌^◌, Bool, true, false, not, ◌&&◌, Option, none, some, List, [], ◌∷◌, ltb, leb, ◌==◌,
  if◌then◌else◌, any, bytes_eq,
}
use syntra.Proto.Error.{Bytes}
use syntra.Clients.Entry.{
  Position, SocketAddr, ClientConfig, ClientState, Client, default_client, same_position, same_text,
  with_ips, with_fix_ips, with_dns_ips, with_hostname, with_port, with_pos, with_alive,
  with_round_trip,
}

-- A map is a list of entries in the order of their handles.
module _ {ℓ} {V : Type ℓ} where
  unfoldable pub lookup : List (ℕ × V) → ℕ → Option V
  lookup [] handle = none
  lookup ((h, v) ∷ entries) handle = if h == handle then some v else lookup entries handle

  unfoldable pub insert : List (ℕ × V) → ℕ → V → List (ℕ × V)
  insert [] handle value = (handle, value) ∷ []
  insert ((h, v) ∷ entries) handle value =
      let rest = insert entries handle value in
      if ltb handle h
      then (handle, value) ∷ (h, v) ∷ entries
      else if h == handle
      then (handle, value) ∷ entries
      else (h, v) ∷ rest

  unfoldable pub delete : List (ℕ × V) → ℕ → List (ℕ × V)
  delete [] handle = []
  delete ((h, v) ∷ entries) handle =
      let rest = delete entries handle in if h == handle then entries else (h, v) ∷ rest

  -- `if let Some(v) = map.get_mut(&handle) { .. }`
  unfoldable pub modify : (V → V) → List (ℕ × V) → ℕ → List (ℕ × V)
  modify change [] handle = []
  modify change ((h, v) ∷ entries) handle =
      let rest = modify change entries handle in
      if h == handle then (h, change v) ∷ entries else (h, v) ∷ rest

  -- `find_map` with a test on the value.
  unfoldable pub first_with : (V → Bool) → List (ℕ × V) → Option ℕ
  first_with test [] = none
  first_with test ((h, v) ∷ entries) = if test v then some h else first_with test entries

  unfoldable pub all_with : (V → Bool) → List (ℕ × V) → List ℕ
  all_with test [] = []
  all_with test ((h, v) ∷ entries) =
      let rest = all_with test entries in if test v then h ∷ rest else rest

pub record ClientManager : Type 0 where
  pub clients : List (ℕ × Client)
  pub next_handle : ℕ
  pub peer_fingerprints : List (ℕ × Bytes)

-- The entries of the configuration, with the elements of the set of addresses in some order.
pub record ConfigClient : Type 0 where
  pub ips : List Bytes
  pub hostname : Option Bytes
  pub port : ℕ
  pub pos : Position
  pub active : Bool
  pub enter_hook : Option Bytes
  pub peer_fingerprint : Option Bytes

abbrev pub enter_handle_begin : ℕ
enter_handle_begin = 2 ^ 63

unfoldable pub default : ClientManager
default = record { clients = []; next_handle = 0; peer_fingerprints = [] }

unfoldable pub update : (Client → Client) → ClientManager → ℕ → ClientManager
update change m handle = record m { clients = modify change m.clients handle }

-- The test on a client, `false` where there is none.
unfoldable pub holds : (Client → Bool) → Option Client → Bool
holds test none = false
holds test (some c) = test c

unfoldable pub contains : ClientManager → ℕ → Bool
contains m handle = holds (λ c. true) (lookup m.clients handle)

-- `none` is the panic when the handles are used up.
unfoldable pub add_client : ClientManager → Option (ClientManager × ℕ)
add_client m =
    if leb enter_handle_begin m.next_handle
    then none
    else some (
      record m {
        next_handle = m.next_handle + 1;
        clients = insert m.clients m.next_handle default_client;
      },
      m.next_handle,
    )

unfoldable pub set_config : ClientConfig → ClientManager → ℕ → ClientManager
set_config config = update (λ c. record c { config = config })

unfoldable pub set_state : ClientState → ClientManager → ℕ → ClientManager
set_state state = update (λ c. record c { state = state })

unfoldable pub set_peer_fingerprint : Bytes → ClientManager → ℕ → ClientManager
set_peer_fingerprint fingerprint m handle =
    if contains m handle
    then record m { peer_fingerprints = insert m.peer_fingerprints handle fingerprint }
    else m

abbrev pub config_of : ConfigClient → ClientConfig
config_of c = record {
  hostname = c.hostname;
  fix_ips = c.ips;
  port = c.port;
  pos = c.pos;
  cmd = c.enter_hook;
}

abbrev pub state_of : ConfigClient → ClientState
state_of c = record {
  active = c.active;
  active_addr = none;
  alive = false;
  remote_ready = false;
  dns_ips = [];
  ips = c.ips;
  has_pressed_keys = false;
  resolving = false;
  peer_commit = none;
  round_trip_us = none;
}

abbrev pub with_fingerprint : Option Bytes → ClientManager → ℕ → ClientManager
with_fingerprint none m handle = m
with_fingerprint (some fingerprint) m handle = set_peer_fingerprint fingerprint m handle

-- The settings of a client that was added.
unfoldable pub configure : ConfigClient → ClientManager → ℕ → ClientManager
configure c m handle =
    with_fingerprint c.peer_fingerprint
      (set_state (state_of c) (set_config (config_of c) m handle) handle) handle

abbrev pub configured : ConfigClient → Option (ClientManager × ℕ) → Option (ClientManager × ℕ)
configured c none = none
configured c (some (m, handle)) = some (configure c m handle, handle)

unfoldable pub add_with_config : ConfigClient → ClientManager → Option (ClientManager × ℕ)
add_with_config c m = configured c (add_client m)

unfoldable pub remove_client : ClientManager → ℕ → ClientManager × Option Client
remove_client m handle = (
  record m {
    peer_fingerprints = delete m.peer_fingerprints handle;
    clients = delete m.clients handle;
  },
  lookup m.clients handle,
)

-- A change that is made if the test holds, and whether it was.
unfoldable pub change_if :
    (Client → Bool) → (Client → Client) → ClientManager → ℕ → ClientManager × Bool
change_if test change m handle =
    if holds test (lookup m.clients handle) then (update change m handle, true) else (m, false)

unfoldable pub activate_client : ClientManager → ℕ → ClientManager × Bool
activate_client =
    change_if (λ c. not c.state.active) (λ c. record c { state = record c.state { active = true } })

unfoldable pub deactivate_client : ClientManager → ℕ → ClientManager × Bool
deactivate_client =
    change_if (λ c. c.state.active) (λ c. record c { state = record c.state { active = false } })

unfoldable pub update_ips : ClientManager → ℕ → ClientManager
update_ips = update with_ips

unfoldable pub set_fix_ips : List Bytes → ClientManager → ℕ → ClientManager
set_fix_ips ips m handle = update_ips (update (with_fix_ips ips) m handle) handle

unfoldable pub set_dns_ips : List Bytes → ClientManager → ℕ → ClientManager
set_dns_ips ips m handle = update_ips (update (with_dns_ips ips) m handle) handle

unfoldable pub set_hostname : Option Bytes → ClientManager → ℕ → ClientManager × Bool
set_hostname hostname m handle =
    if holds (λ c. not (same_text c.config.hostname hostname)) (lookup m.clients handle)
    then (update_ips (update (with_hostname hostname) m handle) handle, true)
    else (m, false)

unfoldable pub set_port : ℕ → ClientManager → ℕ → ClientManager
set_port port = update (with_port port)

-- Whether the position has changed of a client that is active.
unfoldable pub set_pos : Position → ClientManager → ℕ → ClientManager × Bool
set_pos pos m handle =
    if holds (λ c. not (same_position c.config.pos pos)) (lookup m.clients handle)
    then (update (with_pos pos) m handle, holds (λ c. c.state.active) (lookup m.clients handle))
    else (m, false)

unfoldable pub set_enter_hook : Option Bytes → ClientManager → ℕ → ClientManager
set_enter_hook hook = update (λ c. record c { config = record c.config { cmd = hook } })

unfoldable pub set_resolving : Bool → ClientManager → ℕ → ClientManager
set_resolving status = update (λ c. record c { state = record c.state { resolving = status } })

unfoldable pub set_active_addr : Option SocketAddr → ClientManager → ℕ → ClientManager
set_active_addr addr = update (λ c. record c { state = record c.state { active_addr = addr } })

unfoldable pub set_alive : Bool → ClientManager → ℕ → ClientManager
set_alive alive = update (with_alive alive)

unfoldable pub record_round_trip : ℕ → ClientManager → ℕ → ClientManager
record_round_trip sample = update (with_round_trip sample)

unfoldable pub set_remote_ready : Bool → ClientManager → ℕ → ClientManager
set_remote_ready ready = update (λ c. record c { state = record c.state { remote_ready = ready } })

unfoldable pub set_peer_commit : Option Bytes → ClientManager → ℕ → ClientManager
set_peer_commit commit = update (λ c. record c { state = record c.state { peer_commit = commit } })

unfoldable pub get_client : ClientManager → SocketAddr → Option ℕ
get_client m addr =
    first_with (λ c. c.state.active && any (λ ip. bytes_eq ip addr.ip) c.state.ips) m.clients

unfoldable pub client_at : ClientManager → Position → Option ℕ
client_at m pos = first_with (λ c. c.state.active && same_position c.config.pos pos) m.clients

unfoldable pub active_clients : ClientManager → List ℕ
active_clients m = all_with (λ c. c.state.active) m.clients

unfoldable pub clipboard_clients : ClientManager → List ℕ
clipboard_clients m = all_with (λ c. c.state.alive && c.state.remote_ready) m.clients
