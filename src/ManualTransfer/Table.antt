-- ===== src/ManualTransfer/Table.antt =====
-- crates/syntra-core/src/manual_transfer.rs: `ManualTransfers`, the table of all transfers.
use syntra.Prelude.{
  ℕ, ◌+◌, Bool, not, ◌&&◌, Option, none, some, List, [], ◌∷◌, ◌++◌, ltb, ◌==◌, if◌then◌else◌,
  length, any, take, bytes_eq,
}
use syntra.Proto.Error.{Bytes}
use syntra.ManualTransfer.Record.{
  Record, ManualAction, Direction, ManualTransferState, is_terminal, approval_timeout,
}

-- `RecordKey`: the peer's fingerprint and the transfer's id.
abbrev pub RecordKey : Type 0
RecordKey = Bytes × ℕ

unfoldable pub same : RecordKey → RecordKey → Bool
unfolding bytes_eq
same a b = bytes_eq a.0 b.0 && a.1 == b.1

-- The map is a list of records of distinct keys.
pub record ManualTransfers (P : Type 0) : Type 0 where
  pub records : List (Record P)
  pub terminal : List RecordKey

pub record FileReceiveSettings : Type 0 where
  pub auto_accept : Bool
  pub download_directory : Bytes

abbrev pub max_records : ℕ
max_records = 32

abbrev pub max_terminal : ℕ
max_terminal = 100

unfoldable pub contains : List RecordKey → RecordKey → Bool
contains keys key = any (λ k. same k key) keys

module _ {P : Type 0} where
  abbrev pub key_of : Record P → RecordKey
  key_of r = (r.fingerprint, r.id)

  unfoldable pub empty : ManualTransfers P
  empty = record { records = []; terminal = [] }

  unfoldable pub find : List (Record P) → RecordKey → Option (Record P)
  find [] key = none
  find (r ∷ records) key = if same (key_of r) key then some r else find records key

  unfoldable pub remove : List (Record P) → RecordKey → List (Record P)
  remove [] key = []
  remove (r ∷ records) key = if same (key_of r) key then records else r ∷ remove records key

  unfoldable pub active : List (Record P) → ℕ
  active [] = 0
  active (r ∷ records) = (if is_terminal r.state then 0 else 1) + active records

  -- `while self.terminal.len() > MAX_TERMINAL { .. }`
  unfoldable pub trim : List (Record P) → List RecordKey → ManualTransfers P
  trim records [] = record { records = records; terminal = [] }
  trim records (oldest ∷ keys) =
      let trimmed = trim (remove records oldest) keys in
      if ltb max_terminal (length (oldest ∷ keys))
      then trimmed
      else record { records = records; terminal = oldest ∷ keys }

  -- `insert` takes the place of a record with the key.
  unfoldable pub store : ManualTransfers P → Record P → ManualTransfers P
  store s r = trim (r ∷ remove s.records (key_of r)) (
      if is_terminal r.state && not (contains s.terminal (key_of r))
      then s.terminal ++ key_of r ∷ []
      else s.terminal)

  -- A record that is taken out, changed and stored again.
  unfoldable pub put_back :
      ManualTransfers P
      → RecordKey
      → Record P × List (ManualAction P)
      → ManualTransfers P × List (ManualAction P)
  put_back s key (r, actions) = (store (record s { records = remove s.records key }) r, actions)

  -- A call for one record; without a record it answers what it answers.
  unfoldable pub on_record :
      ManualTransfers P
      → RecordKey
      → Option (Record P)
      → List (ManualAction P)
      → (Record P → Record P × List (ManualAction P))
      → ManualTransfers P × List (ManualAction P)
  on_record s key none otherwise step = (s, otherwise)
  on_record s key (some r) otherwise step = put_back s key (step r)

  -- The first number drawn that no record has; a draw that fails ends the search.
  unfoldable pub first_free : List (Record P) → List (Option ℕ) → Option ℕ
  first_free records [] = none
  first_free records (none ∷ draws) = none
  first_free records (some id ∷ draws) =
      let rest = first_free records draws in
      if not (id == 0) && not (any (λ (r : Record P). r.id == id) records) then some id else rest

  unfoldable pub next_transfer_id : List (Record P) → List (Option ℕ) → Option ℕ
  next_transfer_id records draws = first_free records (take 16 draws)

  unfoldable pub new_record :
      P → Bytes → ℕ → Bytes → ℕ → Direction → ManualTransferState → ℕ → Record P
  new_record peer fingerprint id name size direction state now = record {
    peer = peer;
    fingerprint = fingerprint;
    id = id;
    name = name;
    size = size;
    transferred = 0;
    direction = direction;
    state = state;
    destination = none;
    error = none;
    offer = none;
    outgoing = none;
    incoming = none;
    replacement = none;
    last_activity = now;
    last_notification = now;
    approval_deadline = now + approval_timeout;
    retries = 0;
    cached_request = none;
    cached_response = none;
    retry_event = none;
    final_digest = none;
    early_digest = none;
    final_result = none;
  }
