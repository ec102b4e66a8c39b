-- ===== src/ManualTransfer/Messages.antt =====
-- crates/syntra-core/src/manual_transfer.rs: what the peer's messages do (`handle_protocol`).
use syntra.Prelude.{
  ℕ, Bool, true, false, not, ◌||◌, Option, none, some, List, [], ◌∷◌, leb, ◌==◌, if◌then◌else◌,
  length, bytes_eq, codes,
}
use syntra.Proto.Error.{Bytes, Result, ok, err}
use syntra.Proto.Event.{ProtoEvent, ManualDecision}
use syntra.Proto.Names.{validate_manual_file_name}
use syntra.ManualTransfer.Files.{Disk, Library}
use syntra.ManualTransfer.Record.{
  Record, ManualAction, notify_with, incoming_file_offer, receiving, awaiting_acceptance, cancelled,
  is_terminal, is_receiving, notify, send, send_to, peer_failure, offer_response, offer_snapshot,
  terminal, remote_not_accepted_error,
}
use syntra.ManualTransfer.Sender.{send_chunk, decision, receive_result}
use syntra.ManualTransfer.Receiver.{prepare_receiver, write_chunk, complete_receiver}
use syntra.ManualTransfer.Table.{
  RecordKey, ManualTransfers, FileReceiveSettings, max_records, find, remove, active, store,
  on_record, new_record,
}

abbrev pub is_err : Result (Unit {0}) → Bool
is_err (ok u) = false
is_err (err e) = true

-- The transfer that an event is about.
unfoldable pub transfer_id_of : ProtoEvent → Option ℕ
transfer_id_of (ProtoEvent.manual_file_decision id d) = some id
transfer_id_of (ProtoEvent.manual_file_request id offset count) = some id
transfer_id_of (ProtoEvent.manual_file_chunk id offset bytes) = some id
transfer_id_of (ProtoEvent.manual_file_complete id sha256) = some id
transfer_id_of (ProtoEvent.manual_file_result id succeeded error) = some id
transfer_id_of (ProtoEvent.manual_file_cancel id) = some id
transfer_id_of event = none

module _ {P : Type 0} where
  -- A cancel of the peer's.
  unfoldable pub cancelled_by_peer : Record P → ℕ → Record P × List (ManualAction P)
  cancelled_by_peer r now =
      if is_terminal r.state
      then (r, [])
      else (terminal r cancelled none now, notify (terminal r cancelled none now) ∷ [])

  module _ (lib : Library) where
    -- The match of `handle_protocol` on an event for a record.
    unfoldable pub handle : Disk → Record P → ProtoEvent → ℕ → Record P × List (ManualAction P)
    handle disk r (ProtoEvent.manual_file_decision id d) now = decision r d now
    handle disk r (ProtoEvent.manual_file_request id offset count) now =
        send_chunk lib disk r offset count now
    handle disk r (ProtoEvent.manual_file_chunk id offset bytes) now =
        write_chunk lib disk r offset bytes now
    handle disk r (ProtoEvent.manual_file_complete id sha256) now =
        complete_receiver lib disk r sha256 now
    handle disk r (ProtoEvent.manual_file_result id succeeded error) now =
        receive_result r succeeded error now
    handle disk r (ProtoEvent.manual_file_cancel id) now = cancelled_by_peer r now
    handle disk r event now = (r, [])

    -- The user's answer to an offer is asked for, unless files are accepted without one.
    unfoldable pub answer_offer :
        Disk → Record P → FileReceiveSettings → ℕ → Record P × List (ManualAction P)
    answer_offer disk r settings now =
        if settings.auto_accept
        then prepare_receiver lib disk r settings.download_directory now true
        else (
          r,
          send r (ProtoEvent.manual_file_decision r.id ManualDecision.pending)
              ∷ notify r
              ∷ notify_with (incoming_file_offer (offer_snapshot r))
              ∷ [],
        )

    unfoldable pub receive_new :
        Disk
        → ManualTransfers P
        → Record P
        → FileReceiveSettings
        → ℕ
        → ManualTransfers P × List (ManualAction P)
    receive_new disk s r settings now =
        let (kept, actions) = answer_offer disk r settings now in
        (store s kept, (if length actions == 0 then notify kept ∷ [] else actions))

    -- An offer that came before.
    unfoldable pub receive_again :
        ManualTransfers P
        → P
        → RecordKey
        → Bytes
        → ℕ
        → Record P
        → ManualTransfers P × List (ManualAction P)
    unfolding bytes_eq
    receive_again s peer key name size r =
        if not (is_receiving r.direction) || (not (bytes_eq r.name name) || not (r.size == size))
        then (s, peer_failure peer key.1 (codes "conflicting file offer") ∷ [])
        else (
          record s { records = record r { peer = peer } ∷ remove s.records key },
          send (record r { peer = peer }) (offer_response r) ∷ [],
        )

    unfoldable pub receive_known :
        Disk
        → ManualTransfers P
        → P
        → Bytes
        → ℕ
        → Bytes
        → ℕ
        → FileReceiveSettings
        → ℕ
        → Option (Record P)
        → ManualTransfers P × List (ManualAction P)
    receive_known disk s peer fingerprint id name size settings now (some r) =
        receive_again s peer (fingerprint, id) name size r
    receive_known disk s peer fingerprint id name size settings now none =
        if leb max_records (active s.records)
        then (s, peer_failure peer id (codes "too many active file transfers") ∷ [])
        else receive_new disk s
            (record (new_record peer fingerprint id name size receiving awaiting_acceptance now) {
              destination = some settings.download_directory;
            })
            settings now

    unfoldable pub receive_offer :
        Disk
        → ManualTransfers P
        → P
        → Bytes
        → ℕ
        → Bytes
        → ℕ
        → FileReceiveSettings
        → ℕ
        → ManualTransfers P × List (ManualAction P)
    receive_offer disk s peer fingerprint id name size settings now =
        if id == 0 || is_err (validate_manual_file_name name)
        then (s, peer_failure peer id (codes "invalid file offer") ∷ [])
        else receive_known disk s peer fingerprint id name size settings now
            (find s.records (fingerprint, id))

    -- The answer for a transfer that is not there.
    unfoldable pub unknown : P → ProtoEvent → List (ManualAction P)
    unknown peer (ProtoEvent.manual_file_request id offset count) =
        peer_failure peer id remote_not_accepted_error ∷ []
    unknown peer (ProtoEvent.manual_file_chunk id offset bytes) =
        peer_failure peer id remote_not_accepted_error ∷ []
    unknown peer (ProtoEvent.manual_file_complete id sha256) =
        peer_failure peer id remote_not_accepted_error ∷ []
    unknown peer (ProtoEvent.manual_file_decision id ManualDecision.accepted) =
        send_to peer (ProtoEvent.manual_file_cancel id) ∷ []
    unknown peer event = []

    unfoldable pub handle_known :
        Disk
        → ManualTransfers P
        → P
        → Bytes
        → ProtoEvent
        → ℕ
        → Option ℕ
        → ManualTransfers P × List (ManualAction P)
    handle_known disk s peer fingerprint event now none = (s, [])
    handle_known disk s peer fingerprint event now (some id) =
        on_record s (fingerprint, id) (find s.records (fingerprint, id)) (unknown peer event)
          (λ r. handle disk (record r { peer = peer }) event now)

    unfoldable pub handle_protocol :
        Disk
        → ManualTransfers P
        → P
        → Bytes
        → ProtoEvent
        → FileReceiveSettings
        → ℕ
        → ManualTransfers P × List (ManualAction P)
    handle_protocol disk s peer fingerprint (ProtoEvent.manual_file_offer id name size) settings
          now =
        receive_offer disk s peer fingerprint id name size settings now
    handle_protocol disk s peer fingerprint event settings now =
        handle_known disk s peer fingerprint event now (transfer_id_of event)
