-- ===== src/ManualTransfer/Clock.antt =====
-- crates/syntra-core/src/manual_transfer.rs: what time and the loss of a connection do (`tick`,
-- `refresh_routes`).
use syntra.Prelude.{
  ℕ, ◌+◌, ◌-◌, not, ◌&&◌, ◌||◌, Option, none, some, List, [], ◌∷◌, ◌++◌, ltb, leb, if◌then◌else◌,
  codes,
}
use syntra.Proto.Error.{Bytes}
use syntra.Proto.Event.{ProtoEvent}
use syntra.ManualTransfer.Record.{
  Record, ManualAction, failed, is_terminal, is_offering, is_awaiting, notify, send, terminal,
  retry_timeout, max_retries,
}
use syntra.ManualTransfer.Table.{RecordKey, ManualTransfers, key_of, find, on_record}

module _ {P : Type 0} where
  -- `if let Some(event) = record.retry_event.clone() { .. }`
  abbrev send_again : Record P → Option ProtoEvent → List (ManualAction P)
  send_again r none = []
  send_again r (some event) = send r event ∷ []

  abbrev pub retried : Record P → ℕ → Record P
  retried r now = record r { retries = r.retries + 1; last_activity = now }

  unfoldable pub give_up : Record P → Bytes → ℕ → Record P × List (ManualAction P)
  give_up r reason now =
      let ended = terminal r failed (some reason) now in
      (ended, send r (ProtoEvent.manual_file_cancel r.id) ∷ notify ended ∷ [])

  unfoldable pub tick_terminal : Record P → ℕ → Record P × List (ManualAction P)
  tick_terminal r now =
      if ltb r.retries max_retries && leb retry_timeout (now - r.last_activity)
      then (retried r now, send_again (retried r now) r.retry_event)
      else (r, [])

  unfoldable pub tick_active : Record P → ℕ → Record P × List (ManualAction P)
  tick_active r now =
      if (is_offering r.state || is_awaiting r.state) && leb r.approval_deadline now
      then give_up r (codes "file offer expired") now
      else if not (is_awaiting r.state) && leb retry_timeout (now - r.last_activity)
      then if leb max_retries r.retries
        then give_up r (codes "file transfer timed out") now
        else (retried r now, send_again (retried r now) r.retry_event)
      else (r, [])

  unfoldable pub tick_record : Record P → ℕ → Record P × List (ManualAction P)
  tick_record r now = if is_terminal r.state then tick_terminal r now else tick_active r now

  -- A step for each key; a record that is gone meanwhile is passed over.
  unfoldable pub for_each :
      (Record P → Record P × List (ManualAction P))
      → List RecordKey
      → ManualTransfers P
      → ManualTransfers P × List (ManualAction P)
  for_each step [] s = (s, [])
  for_each step (key ∷ keys) s =
      let (t, actions) = on_record s key (find s.records key) [] step in
      let (u, more) = for_each step keys t in (u, actions ++ more)

  abbrev pub keys_of : List (Record P) → List RecordKey
  keys_of [] = []
  keys_of (r ∷ records) = key_of r ∷ keys_of records

  unfoldable pub tick : ManualTransfers P → ℕ → ManualTransfers P × List (ManualAction P)
  tick s now = for_each (λ r. tick_record r now) (keys_of s.records) s

  unfoldable pub refresh_record : Record P → Option P → ℕ → Record P × List (ManualAction P)
  refresh_record r (some peer) now = (record r { peer = peer }, [])
  refresh_record r none now =
      let ended = terminal r failed (some (codes "peer disconnected")) now in
      if not (is_terminal r.state) then (ended, notify ended ∷ []) else (r, [])

  unfoldable pub refresh_routes :
      ManualTransfers P → (Bytes → Option P) → ℕ → ManualTransfers P × List (ManualAction P)
  refresh_routes s routes now =
      for_each (λ r. refresh_record r (routes r.fingerprint) now) (keys_of s.records) s
