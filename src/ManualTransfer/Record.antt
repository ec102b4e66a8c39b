-- ===== src/ManualTransfer/Record.antt =====
-- crates/syntra-core/src/manual_transfer.rs: the record of one transfer, and the steps that its handlers
-- share.
use syntra.Prelude.{
  ℕ, ◌-◌, Bool, true, false, ◌||◌, Option, none, some, List, [], ◌∷◌, ◌++◌, leb, ◌==◌,
  if◌then◌else◌, codes,
}
use syntra.Proto.Error.{Bytes}
use syntra.Proto.Event.{ProtoEvent, ManualDecision}
use syntra.Proto.Limits.{max_manual_file_chunk_size}
use syntra.ManualTransfer.Files.{
  OutgoingFile, IncomingFile, TransferError, io, unsupported_entry, unsafe_path, Library,
}

pub data Direction : Type 0 where
  sending receiving : Direction

pub data ManualTransferState : Type 0 where
  offering awaiting_acceptance transferring completed declined cancelled failed :
      ManualTransferState

-- Times are milliseconds. A digest is its 32 bytes. `offer` is the size of the opened offer's entry, and
-- `replacement` the staging directory and the target.
pub record Record (P : Type 0) : Type 0 where
  pub peer : P
  pub fingerprint : Bytes
  pub id : ℕ
  pub name : Bytes
  pub size : ℕ
  pub transferred : ℕ
  pub direction : Direction
  pub state : ManualTransferState
  pub destination : Option Bytes
  pub error : Option Bytes
  pub offer : Option ℕ
  pub outgoing : Option OutgoingFile
  pub incoming : Option IncomingFile
  pub replacement : Option (Bytes × Bytes)
  pub last_activity : ℕ
  pub last_notification : ℕ
  pub approval_deadline : ℕ
  pub retries : ℕ
  pub cached_request : Option (ℕ × ℕ)
  pub cached_response : Option ProtoEvent
  pub retry_event : Option ProtoEvent
  pub final_digest : Option Bytes
  pub early_digest : Option Bytes
  pub final_result : Option (Bool × Option Bytes)

pub record ManualTransferStatus : Type 0 where
  pub peer_fingerprint : Bytes
  pub transfer_id : ℕ
  pub file_name : Bytes
  pub size : ℕ
  pub transferred : ℕ
  pub direction : Direction
  pub state : ManualTransferState
  pub destination : Option Bytes
  pub error : Option Bytes

pub record IncomingFileOffer : Type 0 where
  pub peer_fingerprint : Bytes
  pub transfer_id : ℕ
  pub file_name : Bytes
  pub size : ℕ
  pub suggested_directory : Bytes

pub data FrontendEvent : Type 0 where
  manual_transfer_status : ManualTransferStatus → FrontendEvent
  incoming_file_offer : IncomingFileOffer → FrontendEvent
  manual_transfer_error : Bytes → FrontendEvent

pub data ManualAction (P : Type 0) : Type 0 where
  send_to : P → ProtoEvent → ManualAction P
  notify_with : FrontendEvent → ManualAction P

abbrev pub approval_timeout : ℕ
approval_timeout = 600_000

abbrev pub retry_timeout : ℕ
retry_timeout = 5_000

abbrev progress_interval : ℕ
progress_interval = 100

abbrev pub max_retries : ℕ
max_retries = 3

abbrev pub remote_transfer_error : Bytes
remote_transfer_error = codes "file transfer failed"

abbrev pub remote_not_accepted_error : Bytes
remote_not_accepted_error = codes "transfer not accepted"

abbrev pub remote_preparation_error : Bytes
remote_preparation_error = codes "destination unavailable"

abbrev pub is_terminal : ManualTransferState → Bool
is_terminal completed = true
is_terminal declined = true
is_terminal cancelled = true
is_terminal failed = true
is_terminal _ = false

abbrev pub is_offering : ManualTransferState → Bool
is_offering offering = true
is_offering _ = false

abbrev pub is_awaiting : ManualTransferState → Bool
is_awaiting awaiting_acceptance = true
is_awaiting _ = false

abbrev pub is_transferring : ManualTransferState → Bool
is_transferring transferring = true
is_transferring _ = false

abbrev pub is_sending : Direction → Bool
is_sending sending = true
is_sending receiving = false

abbrev pub is_receiving : Direction → Bool
is_receiving sending = false
is_receiving receiving = true

abbrev or_empty : Option Bytes → Bytes
or_empty none = []
or_empty (some path) = path

-- `local_source_error` and `local_receive_error`
unfoldable pub local_source_error : Library → TransferError → Bytes
local_source_error lib (unsupported_entry path) = codes "only regular files can be sent"
local_source_error lib (unsafe_path path) = codes "the file name is not portable"
local_source_error lib e = lib.display e

unfoldable pub local_receive_error : Library → TransferError → Bytes
local_receive_error lib (io reason true) = codes "a file with this name already exists"
local_receive_error lib e = lib.display e

unfoldable pub sanitize_remote_error : Option Bytes → Bytes
sanitize_remote_error none = codes "remote peer rejected the file"
sanitize_remote_error (some []) = codes "remote peer rejected the file"
sanitize_remote_error (some error) = error

abbrev pub request : ℕ → ℕ → ProtoEvent
request transfer_id offset =
    ProtoEvent.manual_file_request transfer_id offset max_manual_file_chunk_size

-- The result that a finished transfer is answered with.
result_event : ℕ → Option (Bool × Option Bytes) → ProtoEvent
result_event id none = ProtoEvent.manual_file_result id false (some remote_transfer_error)
result_event id (some (success, error)) = ProtoEvent.manual_file_result id success error

-- What is sent again after a transfer has ended so.
terminal_event : ManualTransferState → ℕ → Option ProtoEvent
terminal_event declined id = some (ProtoEvent.manual_file_decision id ManualDecision.declined)
terminal_event cancelled id = some (ProtoEvent.manual_file_cancel id)
terminal_event _ id = none

module _ {P : Type 0} where
  unfoldable pub status : Record P → ManualTransferStatus
  status r = record {
    peer_fingerprint = r.fingerprint;
    transfer_id = r.id;
    file_name = r.name;
    size = r.size;
    transferred = r.transferred;
    direction = r.direction;
    state = r.state;
    destination = r.destination;
    error = r.error;
  }

  unfoldable pub offer_snapshot : Record P → IncomingFileOffer
  offer_snapshot r = record {
    peer_fingerprint = r.fingerprint;
    transfer_id = r.id;
    file_name = r.name;
    size = r.size;
    suggested_directory = or_empty r.destination;
  }

  abbrev pub notify : Record P → ManualAction P
  notify r = notify_with (manual_transfer_status (status r))

  abbrev pub send : Record P → ProtoEvent → ManualAction P
  send r event = send_to r.peer event

  abbrev pub peer_failure : P → ℕ → Bytes → ManualAction P
  peer_failure peer transfer_id error =
      send_to peer (ProtoEvent.manual_file_result transfer_id false (some error))

  unfoldable pub offer_response : Record P → ProtoEvent
  unfolding result_event
  offer_response r = elim r.state [
    | awaiting_acceptance ↦ ProtoEvent.manual_file_decision r.id ManualDecision.pending
    | transferring ↦ ProtoEvent.manual_file_decision r.id ManualDecision.accepted
    | declined ↦ ProtoEvent.manual_file_decision r.id ManualDecision.declined
    | cancelled ↦ ProtoEvent.manual_file_cancel r.id
    | _ ↦ result_event r.id r.final_result
  ]

  unfoldable pub terminal : Record P → ManualTransferState → Option Bytes → ℕ → Record P
  unfolding terminal_event
  terminal r state error now = record r {
    state = state;
    error = error;
    retries = 0;
    last_activity = now;
    cached_response = none;
    outgoing = none;
    offer = none;
    incoming = none;
    replacement = none;
    retry_event = terminal_event state r.id;
  }

  -- Every call asks to report to the peer.
  unfoldable pub fail : Record P → Bytes → ℕ → Record P × List (ManualAction P)
  fail r error now =
      let ended = terminal r failed (some error) now in
      (
        record ended { retry_event = some (offer_response ended) },
        notify (record ended { retry_event = some (offer_response ended) })
            ∷ peer_failure r.peer r.id remote_transfer_error
            ∷ [],
      )

  unfoldable pub progress : Record P → ℕ → List (ManualAction P) → Record P × List (ManualAction P)
  progress r now actions =
      if r.transferred == r.size || leb progress_interval (now - r.last_notification)
      then (record r { last_notification = now }, actions ++ notify r ∷ [])
      else (r, actions)
