-- ===== src/ManualTransfer/Handshake.antt =====
-- crates/syntra-core/src/manual_transfer.rs: from the offer that the user accepts to the pull.
use syntra.Prelude.{
  ℕ, ◌+◌, ◌*◌, ◌^◌, ◌≤◌, ◌<◌, ◌≡◌, refl, true, false, some, List, [], ◌∷◌, arith, leb, length, min,
  inr, subst, sym,
}
use syntra.Proto.Error.{Bytes}
use syntra.Proto.Event.{ProtoEvent, ManualDecision}
use syntra.Proto.Limits.{max_manual_file_chunk_size}
use syntra.ManualTransfer.Files.{Disk, Library, success, new_incoming}
use syntra.ManualTransfer.Record.{
  Record, ManualAction, awaiting_acceptance, receiving, request, approval_timeout,
}
use syntra.ManualTransfer.Sender.{decision, decide, sender_accepted, receiver_accepted, is_cached}
use syntra.ManualTransfer.Receiver.{prepare_receiver, prepared, receive_into}
use syntra.ManualTransfer.Table.{new_record}
use syntra.ManualTransfer.Messages.{handle}
use syntra.ManualTransfer.Requests.{offered}
use syntra.ManualTransfer.Conversation.{sent, converse}
use syntra.ManualTransfer.Sends.{Reads, SendsAt}
use syntra.ManualTransfer.Receives.{Writes, ReceivesAt, target_at}
use syntra.ManualTransfer.Pull.{BothAt, BothCompleted, round, pull_reaches, pull_completes}

module _ {P : Type 0} where
  -- The record that an offer makes at the receiver.
  abbrev pub offered_to : P → Bytes → ℕ → Bytes → ℕ → Bytes → ℕ → Record P
  offered_to peer fingerprint id name size directory now =
      record (new_record peer fingerprint id name size receiving awaiting_acceptance now) {
        destination = some directory;
      }

module _ {P : Type 0} (lib : Library) (here there : Disk) (file : Bytes) (made directory : Bytes)
    (absolute : lib.is_absolute directory ≡ true) (prepares : there.prepare ≡ success made)
    (s_peer r_peer : P) (s_fingerprint r_fingerprint : Bytes) (id : ℕ) (name : Bytes)
    (offer_time arrival answer_time start : ℕ)
    (answered_in_time : answer_time < arrival + approval_timeout)
    (starts_in_time : start < offer_time + approval_timeout) where
  abbrev sender : Record P
  sender = offered s_peer s_fingerprint id name (length file) offer_time

  abbrev receiver : Record P × List (ManualAction P)
  receiver =
      prepare_receiver lib there
        (offered_to r_peer r_fingerprint id name (length file) directory arrival) directory
        answer_time false

  abbrev ready : Record P × List (ManualAction P)
  ready =
      receive_into lib (offered_to r_peer r_fingerprint id name (length file) directory arrival)
        made answer_time

  abbrev accepted : ProtoEvent
  accepted = ProtoEvent.manual_file_decision id ManualDecision.accepted

  prepare_receiver-accepted : receiver ≡ ready
  unfolding prepare_receiver prepared new_record
  prepare_receiver-accepted =
      let open_still : leb (arrival + approval_timeout) answer_time ≡ false = ground arith in
      rw (open_still, absolute, prepares) refl

  sender-SendsAt :
      SendsAt file 0 (handle lib here sender accepted start).0
      × (sent (handle lib here sender accepted start).1 ≡ accepted ∷ [])
  unfolding handle decision decide offered new_record sender_accepted sent is_cached
  sender-SendsAt =
      let in_time : leb (offer_time + approval_timeout) start ≡ false = ground arith in
      rw (in_time) (
        (
          record {
            way = refl;
            running = refl;
            whole = refl;
            reached = refl;
            opened = inr (refl, (refl, refl));
            fresh = refl;
          },
          refl,
        ))

  receiver-ReceivesAt :
      ReceivesAt file 0 (handle lib there ready.0 accepted start).0
      × (sent (handle lib there ready.0 accepted start).1 ≡ request id 0 ∷ [])
  unfolding receive_into handle decision decide new_record receiver_accepted sent new_incoming
      target_at
  receiver-ReceivesAt = (
    record {
      way = refl;
      running = refl;
      whole = refl;
      reached = refl;
      opened = refl;
      in_order = refl;
    },
    refl,
  )

  -- The echo of the acceptance starts the pull at the first byte.
  handshake :
      (times : List ℕ)
      → (ends : Record P × Record P) × BothAt file 0 ends
        × (converse lib here there (start ∷ times) sender receiver.0 (sent receiver.1)
            ≡ converse lib here there times ends.0 ends.1 (request ends.1.id 0 ∷ []))
  unfolding handle decision decide new_record receiver_accepted receive_into sent
  handshake times =
      let (a, m) = sender-SendsAt in
      let (b, n) = receiver-ReceivesAt in
      (
        ((handle lib here sender accepted start).0, (handle lib there ready.0 accepted start).0),
        (a, b),
        rw (prepare_receiver-accepted)
            (round lib here there start times sender ready.0 accepted accepted (request id 0) m n),
      )

  -- A file offered, accepted before the offer expires at either end, read and written without an error:
  -- when each end handles the messages of the other one in order, then after the acceptance and n rounds,
  -- while n chunks of the largest size do not exceed the file by a whole chunk, the receiver has written
  -- exactly that many of the file's first bytes (all of them in the last such round) and the sender has
  -- read them.
  pub transfer_receives :
      (times : List ℕ)
      → Reads file here
      → Writes there
      → length file < 2 ^ 64
      → length times * max_manual_file_chunk_size < length file + max_manual_file_chunk_size
      → BothAt file
          (min (length file) (length times * max_manual_file_chunk_size))
          (converse lib here there (start ∷ times) sender receiver.0 (sent receiver.1))
  transfer_receives times reads takes small bound =
      let (ends, (a, b), q) = handshake times in
      let reached = min (length file) (length times * max_manual_file_chunk_size) in
      let total : min (length file) (0 + length times * max_manual_file_chunk_size) ≡ reached =
        omega arith in
      let rest = converse lib here there times ends.0 ends.1 (request ends.1.id 0 ∷ []) in
      subst (λ p. BothAt file reached p) (sym q)
        (subst (λ j. BothAt file j rest) total
          (pull_reaches lib here there file reads takes small times 0 ends.0 ends.1 (omega arith)
            (omega arith) a b))

  -- A file offered, accepted before the offer expires at either end, read and written without an error:
  -- when each end handles the messages of the other one in order, the transfer is completed at both ends
  -- once there were rounds enough for the acceptance, each chunk, the digest and the result.
  pub transfer_completes :
      (times : List ℕ)
      → Reads file here
      → Writes there
      → length file < 2 ^ 64
      → length file + 2 * max_manual_file_chunk_size ≤ length times * max_manual_file_chunk_size
      → BothCompleted (converse lib here there (start ∷ times) sender receiver.0 (sent receiver.1))
  transfer_completes times reads takes small enough =
      let (ends, (a, b), q) = handshake times in
      subst (λ p. BothCompleted p) (sym q)
        (pull_completes lib here there file reads takes small times 0 ends.0 ends.1 (omega arith)
          (omega arith) a b)
