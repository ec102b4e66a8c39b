-- ===== src/ManualTransfer/Calls.antt =====
-- crates/syntra-core/src/manual_transfer.rs: every call on the table of transfers, and the bounds that
-- they keep.
use syntra.Prelude.{
  ℕ, ◌≤◌, ◌≡◌, Bool, true, false, Option, none, some, List, [], ◌∷◌, arith, subst, sym,
}
use syntra.Proto.Error.{Bytes}
use syntra.Proto.Event.{ProtoEvent}
use syntra.ManualTransfer.Files.{Disk, Library}
use syntra.ManualTransfer.Record.{Record, ManualAction, is_terminal}
use syntra.ManualTransfer.Receiver.{prepare_receiver}
use syntra.ManualTransfer.Table.{RecordKey, ManualTransfers, FileReceiveSettings, empty, active}
use syntra.ManualTransfer.Messages.{handle, transfer_id_of, unknown, handle_known, handle_protocol}
use syntra.ManualTransfer.Requests.{
  Preparation, send_files, accept, overwrite_record, overwrite, decline_record, decline,
  cancel_record, cancel,
}
use syntra.ManualTransfer.Clock.{
  tick_record, for_each, keys_of, tick, refresh_record, refresh_routes,
}
use syntra.ManualTransfer.Ended.{handle_ended}
use syntra.ManualTransfer.Expiry.{tick_ended}
use syntra.ManualTransfer.Remembered.{Kept-ended, ended, Apart}
use syntra.ManualTransfer.Capacity.{on_record-NoMore, Within, NoMore-Within}
use syntra.ManualTransfer.Admission.{send_files-Within, receive_offer-Within}

-- A call and the table after it.
pub data Call {P : Type 0} (lib : Library) (s : ManualTransfers P)
    : ManualTransfers P → Type 0 where
  by_send :
      (peer : P) (fingerprint : Bytes) (paths : List (List (Option ℕ) × Preparation)) (now : ℕ)
      → Call lib s (send_files lib s peer fingerprint paths now).0
  by_message :
      (disk : Disk) (peer : P) (fingerprint : Bytes) (event : ProtoEvent)
      (settings : FileReceiveSettings) (now : ℕ)
      → Call lib s (handle_protocol lib disk s peer fingerprint event settings now).0
  by_accept :
      (disk : Disk) (fingerprint : Bytes) (id : ℕ) (directory : Bytes) (now : ℕ)
      → Call lib s (accept lib disk s fingerprint id directory now).0
  by_overwrite :
      (disk : Disk) (fingerprint : Bytes) (id : ℕ) (directory : Bytes) (now : ℕ)
      → Call lib s (overwrite lib disk s fingerprint id directory now).0
  by_decline : (fingerprint : Bytes) (id now : ℕ) → Call lib s (decline s fingerprint id now).0
  by_cancel : (fingerprint : Bytes) (id now : ℕ) → Call lib s (cancel s fingerprint id now).0
  by_tick : (now : ℕ) → Call lib s (tick s now).0
  by_refresh : (routes : Bytes → Option P) (now : ℕ) → Call lib s (refresh_routes s routes now).0

-- The tables that calls make from the new one.
pub data Reachable {P : Type 0} (lib : Library) : ManualTransfers P → Type 0 where
  new : Reachable lib empty
  after : {s t : ManualTransfers P} → Reachable lib s → Call lib s t → Reachable lib t

module _ {P : Type 0} where
  decline_ended :
      (r : Record P) (now : ℕ)
      → is_terminal r.state ≡ true
      → is_terminal (decline_record r now).0.state ≡ true
  unfolding decline_record
  decline_ended r now h = ground arith

  cancel_ended :
      (r : Record P) (now : ℕ)
      → is_terminal r.state ≡ true
      → is_terminal (cancel_record r now).0.state ≡ true
  unfolding cancel_record
  cancel_ended r now h = ground arith

  refresh_ended :
      (r : Record P) (route : Option P) (now : ℕ)
      → is_terminal r.state ≡ true
      → is_terminal (refresh_record r route now).0.state ≡ true
  unfolding refresh_record
  refresh_ended r none now h = ground arith
  refresh_ended r (some peer) now h = h

  for_each-Within :
      (step : Record P → Record P × List (ManualAction P))
      → ((r : Record P) → is_terminal r.state ≡ true → is_terminal (step r).0.state ≡ true)
      → (keys : List RecordKey) (s : ManualTransfers P) → Within s
      → Within (for_each step keys s).0
  unfolding for_each
  for_each-Within step ends [] s w = w
  for_each-Within step ends (key ∷ keys) s w =
      for_each-Within step ends keys _ (NoMore-Within (on_record-NoMore s key [] step ends) w)

  module _ (lib : Library) where
    prepare_ended :
        (disk : Disk) (r : Record P) (directory : Bytes) (now : ℕ) (automatic : Bool)
        → is_terminal r.state ≡ true
        → is_terminal (prepare_receiver lib disk r directory now automatic).0.state ≡ true
    unfolding prepare_receiver
    prepare_ended disk r directory now automatic h = ground arith

    overwrite_ended :
        (disk : Disk) (r : Record P) (directory : Bytes) (now : ℕ)
        → is_terminal r.state ≡ true
        → is_terminal (overwrite_record lib disk r directory now).0.state ≡ true
    unfolding overwrite_record
    overwrite_ended disk r directory now h = ground arith

    handle_known-Within :
        (disk : Disk) (s : ManualTransfers P) (peer : P) (fingerprint : Bytes) (event : ProtoEvent)
        (now : ℕ) (id : Option ℕ)
        → Within s
        → Within (handle_known lib disk s peer fingerprint event now id).0
    unfolding handle_known
    handle_known-Within disk s peer fingerprint event now none w = w
    handle_known-Within disk s peer fingerprint event now (some id) w =
        NoMore-Within
          (on_record-NoMore s (fingerprint, id) (unknown lib peer event)
            (λ r. handle lib disk (record r { peer = peer }) event now)
            (λ r h.
              subst (λ x. is_terminal x.state ≡ true)
                (sym (handle_ended lib disk (record r { peer = peer }) now h event)) h))
          w

    handle_protocol-Within :
        (disk : Disk) (s : ManualTransfers P) (peer : P) (fingerprint : Bytes) (event : ProtoEvent)
        (settings : FileReceiveSettings) (now : ℕ)
        → Within s
        → Within (handle_protocol lib disk s peer fingerprint event settings now).0
    unfolding handle_protocol
    handle_protocol-Within disk s peer fingerprint (ProtoEvent.manual_file_offer id name size)
          settings now w =
        receive_offer-Within lib disk s peer fingerprint id name size settings now w
    handle_protocol-Within disk s peer fingerprint event settings now w =
        handle_known-Within disk s peer fingerprint event now (transfer_id_of event) w

    call-Within : {s t : ManualTransfers P} → Call lib s t → Within s → Within t
    unfolding accept overwrite decline cancel tick refresh_routes
    call-Within {s} (by_send peer fingerprint paths now) w =
        send_files-Within lib s peer fingerprint paths now w
    call-Within {s} (by_message disk peer fingerprint event settings now) w =
        handle_protocol-Within disk s peer fingerprint event settings now w
    call-Within {s} (by_accept disk fingerprint id directory now) w =
        NoMore-Within
          (on_record-NoMore s (fingerprint, id) []
            (λ r. prepare_receiver lib disk r directory now false)
            (λ r h. prepare_ended disk r directory now false h))
          w
    call-Within {s} (by_overwrite disk fingerprint id directory now) w =
        NoMore-Within
          (on_record-NoMore s (fingerprint, id) [] (λ r. overwrite_record lib disk r directory now)
            (λ r h. overwrite_ended disk r directory now h))
          w
    call-Within {s} (by_decline fingerprint id now) w =
        NoMore-Within
          (on_record-NoMore s (fingerprint, id) [] (λ r. decline_record r now)
            (λ r h. decline_ended r now h))
          w
    call-Within {s} (by_cancel fingerprint id now) w =
        NoMore-Within
          (on_record-NoMore s (fingerprint, id) [] (λ r. cancel_record r now)
            (λ r h. cancel_ended r now h))
          w
    call-Within {s} (by_tick now) w =
        for_each-Within (λ r. tick_record r now) (λ r h. tick_ended r now h) (keys_of s.records) s w
    call-Within {s} (by_refresh routes now) w =
        for_each-Within (λ r. refresh_record r (routes r.fingerprint) now)
          (λ r h. refresh_ended r (routes r.fingerprint) now h) (keys_of s.records) s w

    pub reachable_bounds : {s : ManualTransfers P} → Reachable lib s → Within s
    unfolding empty active Apart
    reachable_bounds new = record {
      active_le = omega arith;
      terminal_le = omega arith;
      kept = record { apart = tt; queued = tt };
    }
    reachable_bounds (after h c) = call-Within c (reachable_bounds h)

    -- Whatever the user, the peers and the clock do, of the records in the table at most 32 are of transfers
    -- that are active and at most 100 of transfers that have ended, and no two have the same key.
    pub reachable-Within :
        {s : ManualTransfers P}
        → Reachable lib s
        → (active s.records ≤ 32) × (ended s.records ≤ 100) × Apart s.records
    reachable-Within {s} h =
        let w = reachable_bounds h in (w.active_le, Kept-ended s w.kept w.terminal_le, w.kept.apart)
