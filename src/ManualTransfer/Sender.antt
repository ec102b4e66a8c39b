-- ===== src/ManualTransfer/Sender.antt =====
-- crates/syntra-core/src/manual_transfer.rs: `send_chunk`, `decision` and `receive_result`.
use syntra.Prelude.{
  ℕ, ◌+◌, Bool, true, false, not, ◌&&◌, ◌||◌, Option, none, some, List, [], ◌∷◌, ltb, leb, ◌==◌,
  if◌then◌else◌, length, is_empty, codes,
}
use syntra.Proto.Error.{Bytes}
use syntra.Proto.Event.{ProtoEvent, ManualDecision}
use syntra.Proto.Limits.{max_manual_file_chunk_size}
use syntra.ManualTransfer.Files.{
  Transfer, success, failure, OutgoingFile, Disk, Library, open_offer, next_chunk_bounded,
  finalize_digest, source_changed, manual_file_id,
}
use syntra.ManualTransfer.Record.{
  Record, ManualAction, Direction, sending, receiving, awaiting_acceptance, transferring, completed,
  declined, failed, is_terminal, is_offering, is_transferring, is_sending, request, notify, send,
  peer_failure, offer_response, terminal, fail, progress, local_source_error, sanitize_remote_error,
  remote_not_accepted_error,
}

-- `record.cached_request == Some((offset, length))`
unfoldable pub is_cached : Option (ℕ × ℕ) → ℕ → ℕ → Bool
is_cached none offset count = false
is_cached (some (cached_offset, cached_length)) offset count =
    cached_offset == offset && cached_length == count

abbrev pub is_complete : ProtoEvent → Option ProtoEvent
is_complete (ProtoEvent.manual_file_complete transfer_id sha256) =
    some (ProtoEvent.manual_file_complete transfer_id sha256)
is_complete _ = none

abbrev is_decision : Option ProtoEvent → Bool
is_decision (some (ProtoEvent.manual_file_decision transfer_id d)) = true
is_decision _ = false

abbrev pub has_digest : Option Bytes → Bool
has_digest none = false
has_digest (some digest) = true

module _ {P : Type 0} where
  -- The end of `send_chunk`: the response is kept for a request that comes again.
  unfoldable pub respond : Record P → ℕ → ℕ → ProtoEvent → ℕ → Record P × List (ManualAction P)
  respond r offset count response now =
      let answered : Record P = record r {
        cached_request = some (offset, count);
        cached_response = some response;
        retry_event = is_complete response;
        last_activity = now;
        retries = 0;
      } in
      progress answered now (send answered response ∷ [])

  module _ (lib : Library) where
    -- The digest, for a request at the end of the file.
    unfoldable pub send_digest :
        Record P → OutgoingFile → ℕ → ℕ → ℕ → Transfer Bytes → Record P × List (ManualAction P)
    send_digest r source offset count now (failure e) =
        fail (record r { outgoing = some source }) (local_source_error lib e) now
    send_digest r source offset count now (success sha256) =
        respond (record r { outgoing = some source; final_digest = some sha256 }) offset count
          (ProtoEvent.manual_file_complete r.id sha256) now

    -- What was read, for any other request.
    unfoldable pub send_data :
        Record P
        → ℕ
        → ℕ
        → ℕ
        → Transfer (OutgoingFile × Option (ℕ × Bytes))
        → Record P × List (ManualAction P)
    send_data r offset count now (failure e) = fail r (local_source_error lib e) now
    send_data r offset count now (success (source, none)) =
        fail r (local_source_error lib (source_changed manual_file_id)) now
    send_data r offset count now (success (source, some (chunk_offset, bytes))) =
        if chunk_offset == offset && not (is_empty bytes)
        then respond (record r { outgoing = some source; transferred = offset + length bytes })
            offset count (ProtoEvent.manual_file_chunk r.id offset bytes) now
        else fail r (local_source_error lib (source_changed manual_file_id)) now

    unfoldable pub read_source :
        Disk → Record P → ℕ → ℕ → ℕ → OutgoingFile → Record P × List (ManualAction P)
    read_source disk r offset count now source =
        if offset == r.size
        then send_digest r source offset count now (finalize_digest lib disk source)
        else send_data r offset count now (next_chunk_bounded disk source count)

    unfoldable pub read_opened :
        Disk → Record P → ℕ → ℕ → ℕ → Transfer OutgoingFile → Record P × List (ManualAction P)
    read_opened disk r offset count now (failure e) = fail r (local_source_error lib e) now
    read_opened disk r offset count now (success source) =
        read_source disk r offset count now source

    -- The source is opened at the first request.
    unfoldable pub open_source :
        Disk → Record P → ℕ → ℕ → ℕ → Option ℕ → Record P × List (ManualAction P)
    open_source disk r offset count now none = fail r (codes "file source unavailable") now
    open_source disk r offset count now (some size) =
        read_opened disk r offset count now (open_offer disk size)

    unfoldable pub read_next :
        Disk → Record P → ℕ → ℕ → ℕ → Option OutgoingFile → Record P × List (ManualAction P)
    read_next disk r offset count now none = open_source disk r offset count now r.offer
    read_next disk r offset count now (some source) = read_source disk r offset count now source

    -- A request that the cache does not answer.
    unfoldable pub send_new : Disk → Record P → ℕ → ℕ → ℕ → Record P × List (ManualAction P)
    send_new disk r offset count now =
        if ltb offset r.transferred
        then (r, [])
        else if not (offset == r.transferred)
        then fail r (codes "unexpected file offset") now
        else read_next disk r offset count now r.outgoing

    -- The cached response, if there is one.
    unfoldable pub send_cached :
        Disk → Record P → ℕ → ℕ → ℕ → Option ProtoEvent → Record P × List (ManualAction P)
    send_cached disk r offset count now none = send_new disk r offset count now
    send_cached disk r offset count now (some response) =
        (record r { last_activity = now; retries = 0 }, send r response ∷ [])

    unfoldable pub send_chunk : Disk → Record P → ℕ → ℕ → ℕ → Record P × List (ManualAction P)
    send_chunk disk r offset count now =
        if is_terminal r.state
        then (r, [])
        else if not (is_sending r.direction) || not (is_transferring r.state)
        then (r, peer_failure r.peer r.id remote_not_accepted_error ∷ [])
        else if count == 0 || (ltb max_manual_file_chunk_size count || ltb r.size offset)
        then fail r (codes "invalid file request") now
        else if is_cached r.cached_request offset count
        then send_cached disk r offset count now r.cached_response
        else send_new disk r offset count now

  -- The user at the other end has accepted.
  unfoldable pub sender_accepted : Record P → ℕ → Record P × List (ManualAction P)
  sender_accepted r now =
      if leb r.approval_deadline now && not (is_transferring r.state)
      then fail r (codes "file offer expired") now
      else if is_transferring r.state
      then (r, send r (ProtoEvent.manual_file_decision r.id ManualDecision.accepted) ∷ [])
      else let started : Record P = record r {
        state = transferring;
        retry_event = none;
        last_activity = now;
        retries = 0;
        error = none;
      } in
        (
          started,
          send started (ProtoEvent.manual_file_decision r.id ManualDecision.accepted)
              ∷ notify started
              ∷ [],
        )

  -- The sender's echo of the acceptance starts the pull.
  unfoldable pub receiver_accepted : Record P → ℕ → Record P × List (ManualAction P)
  receiver_accepted r now =
      let pull = request r.id r.transferred in
      if is_decision r.retry_event
      then (
        record r { retry_event = some pull; last_activity = now; retries = 0 },
        send r pull ∷ [],
      )
      else (record r { retry_event = some pull }, send r pull ∷ [])

  unfoldable pub decide :
      Record P → Direction → ManualDecision → ℕ → Record P × List (ManualAction P)
  decide r sending ManualDecision.pending now =
      if not (is_offering r.state)
      then (r, [])
      else let waiting : Record P = record r {
        state = awaiting_acceptance;
        retry_event = none;
        retries = 0;
      } in
        (waiting, notify waiting ∷ [])
  decide r sending ManualDecision.accepted now = sender_accepted r now
  decide r sending ManualDecision.declined now =
      (terminal r declined none now, notify (terminal r declined none now) ∷ [])
  decide r receiving ManualDecision.accepted now =
      if is_transferring r.state then receiver_accepted r now else (r, [])
  decide r receiving d now = (r, [])

  unfoldable pub decision : Record P → ManualDecision → ℕ → Record P × List (ManualAction P)
  decision r d now = if is_terminal r.state then (r, []) else decide r r.direction d now

  -- The record with the answer to repeat.
  abbrev pub answering : Record P → Record P
  answering r = record r { retry_event = some (offer_response r) }

  unfoldable pub receive_result :
      Record P → Bool → Option Bytes → ℕ → Record P × List (ManualAction P)
  receive_result r succeeded error now =
      let broken = answering (terminal r failed (some (sanitize_remote_error error)) now) in
      let done : Record P =
        answering (record (terminal r completed none now) { final_result = some (true, none) }) in
      if is_terminal r.state
      then (r, [])
      else if not succeeded
      then (broken, notify broken ∷ [])
      else if (is_sending r.direction && is_transferring r.state)
          && (r.transferred == r.size && has_digest r.final_digest)
      then (done, notify done ∷ [])
      else (r, [])
