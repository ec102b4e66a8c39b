-- ===== src/Clients/Entry.antt =====
-- crates/syntra-api/src/lib.rs and crates/syntra-core/src/client.rs: one configured device, and the
-- changes that the manager makes to one.
use syntra.Prelude.{
  ℕ, ◌+◌, ◌-◌, ◌*◌, ◌/◌, ◌^◌, Bool, true, false, not, Option, none, some, List, [], ◌++◌, ltb, ◌==◌,
  if◌then◌else◌, bytes_eq,
}
use syntra.Proto.Error.{Bytes}

pub data Position : Type 0 where
  left right top bottom : Position

pub record SocketAddr : Type 0 where
  pub ip : Bytes
  pub port : ℕ

pub record ClientConfig : Type 0 where
  pub hostname : Option Bytes
  pub fix_ips : List Bytes
  pub port : ℕ
  pub pos : Position
  pub cmd : Option Bytes

-- `ips` lists the elements of the set.
pub record ClientState : Type 0 where
  pub active : Bool
  pub active_addr : Option SocketAddr
  pub alive : Bool
  pub remote_ready : Bool
  pub dns_ips : List Bytes
  pub ips : List Bytes
  pub has_pressed_keys : Bool
  pub resolving : Bool
  pub peer_commit : Option Bytes
  pub round_trip_us : Option ℕ

pub record Client : Type 0 where
  pub config : ClientConfig
  pub state : ClientState

abbrev default_port : ℕ
default_port = 4242

abbrev pub default_config : ClientConfig
default_config = record {
  hostname = none;
  fix_ips = [];
  port = default_port;
  pos = left;
  cmd = none;
}

abbrev pub default_state : ClientState
default_state = record {
  active = false;
  active_addr = none;
  alive = false;
  remote_ready = false;
  dns_ips = [];
  ips = [];
  has_pressed_keys = false;
  resolving = false;
  peer_commit = none;
  round_trip_us = none;
}

abbrev pub default_client : Client
default_client = record { config = default_config; state = default_state }

unfoldable pub same_position : Position → Position → Bool
same_position left left = true
same_position right right = true
same_position top top = true
same_position bottom bottom = true
same_position _ _ = false

unfoldable pub same_text : Option Bytes → Option Bytes → Bool
same_text none none = true
same_text (some a) (some b) = bytes_eq a b
same_text _ _ = false

-- `update_ips`
unfoldable pub with_ips : Client → Client
with_ips c = record c { state = record c.state { ips = c.config.fix_ips ++ c.state.dns_ips } }

unfoldable pub with_fix_ips : List Bytes → Client → Client
with_fix_ips ips c = record c { config = record c.config { fix_ips = ips } }

unfoldable pub with_dns_ips : List Bytes → Client → Client
with_dns_ips ips c = record c { state = record c.state { dns_ips = ips } }

unfoldable pub with_hostname : Option Bytes → Client → Client
with_hostname hostname c = record {
  config = record c.config { hostname = hostname };
  state = record c.state { active_addr = none; dns_ips = [] };
}

abbrev pub move_port : ℕ → Option SocketAddr → Option SocketAddr
move_port port none = none
move_port port (some addr) = some (record addr { port = port })

unfoldable pub with_port : ℕ → Client → Client
with_port port c =
    if not (c.config.port == port)
    then record {
      config = record c.config { port = port };
      state = record c.state { active_addr = move_port port c.state.active_addr };
    }
    else c

unfoldable pub with_pos : Position → Client → Client
with_pos pos c = record c { config = record c.config { pos = pos } }

-- `set_alive`
unfoldable pub with_alive : Bool → Client → Client
with_alive true c = record c { state = record c.state { alive = true } }
with_alive false c = record c { state = record c.state { alive = false; round_trip_us = none } }

-- `u32::try_from(x).unwrap_or(u32::MAX)`
unfoldable pub capped : ℕ → ℕ
capped x = if ltb x (2 ^ 32) then x else 2 ^ 32 - 1

-- The sample is in microseconds.
unfoldable pub smooth_round_trip : Option ℕ → ℕ → ℕ
smooth_round_trip none sample = capped sample
smooth_round_trip (some previous) sample = capped ((previous * 3 + capped sample) / 4)

unfoldable pub with_round_trip : ℕ → Client → Client
with_round_trip sample c = record c {
  state = record c.state { round_trip_us = some (smooth_round_trip c.state.round_trip_us sample) };
}
