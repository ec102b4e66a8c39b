-- ===== src/ManualTransfer/Ended.antt =====
-- crates/syntra-core/src/manual_transfer.rs: what the handlers of messages do to a transfer that has ended.
use syntra.Prelude.{ℕ, ◌≡◌, refl, Bool, true, Option, arith}
use syntra.Proto.Error.{Bytes}
use syntra.Proto.Event.{ProtoEvent, ManualDecision}
use syntra.ManualTransfer.Files.{Disk, Library}
use syntra.ManualTransfer.Record.{Record, is_terminal}
use syntra.ManualTransfer.Sender.{send_chunk, decision, receive_result}
use syntra.ManualTransfer.Receiver.{write_chunk, complete_receiver}
use syntra.ManualTransfer.Messages.{handle, cancelled_by_peer}

module _ {P : Type 0} (lib : Library) (disk : Disk) (r : Record P) (now : ℕ)
    (ended : is_terminal r.state ≡ true) where
  send_chunk_ended : (offset count : ℕ) → (send_chunk lib disk r offset count now).0 ≡ r
  unfolding send_chunk
  send_chunk_ended offset count = ground arith

  write_chunk_ended : (offset : ℕ) (bytes : Bytes) → (write_chunk lib disk r offset bytes now).0 ≡ r
  unfolding write_chunk
  write_chunk_ended offset bytes = ground arith

  complete_receiver_ended : (digest : Bytes) → (complete_receiver lib disk r digest now).0 ≡ r
  unfolding complete_receiver
  complete_receiver_ended digest = ground arith

  receive_result_ended :
      (succeeded : Bool) (error : Option Bytes) → (receive_result r succeeded error now).0 ≡ r
  unfolding receive_result
  receive_result_ended succeeded error = ground arith

  decision_ended : (d : ManualDecision) → (decision r d now).0 ≡ r
  unfolding decision
  decision_ended d = ground arith

  cancelled_by_peer_ended : (cancelled_by_peer r now).0 ≡ r
  unfolding cancelled_by_peer
  cancelled_by_peer_ended = ground arith

  -- The handlers leave a record that has ended as it is.
  pub handle_ended : (event : ProtoEvent) → (handle lib disk r event now).0 ≡ r
  unfolding handle
  handle_ended (ProtoEvent.manual_file_decision id d) = decision_ended d
  handle_ended (ProtoEvent.manual_file_request id offset count) = send_chunk_ended offset count
  handle_ended (ProtoEvent.manual_file_chunk id offset bytes) = write_chunk_ended offset bytes
  handle_ended (ProtoEvent.manual_file_complete id sha256) = complete_receiver_ended sha256
  handle_ended (ProtoEvent.manual_file_result id succeeded error) =
      receive_result_ended succeeded error
  handle_ended (ProtoEvent.manual_file_cancel id) = cancelled_by_peer_ended
  handle_ended event = refl
