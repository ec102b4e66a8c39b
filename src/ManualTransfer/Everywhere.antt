-- ===== src/ManualTransfer/Everywhere.antt =====
-- crates/syntra-core/src/manual_transfer.rs: what holds of every record of every table that calls make.
use syntra.Prelude.{
  ℕ, ◌≡◌, refl, subst, false, Option, none, some, List, [], ◌∷◌, arith, ltb, leb, length, inl, inr,
  Bool-cases, ◌||◌, not, All, bytes_eq, ◌==◌,
}
use syntra.Proto.Error.{Bytes}
use syntra.Proto.Event.{ProtoEvent}
use syntra.Proto.Names.{validate_manual_file_name}
use syntra.ManualTransfer.Files.{Disk, Library}
use syntra.ManualTransfer.Record.{Record, ManualAction, is_receiving}
use syntra.ManualTransfer.Table.{
  RecordKey, same, ManualTransfers, FileReceiveSettings, max_records, max_terminal, key_of, find,
  remove, active, trim, store, put_back, on_record, empty, new_record, next_transfer_id,
}
use syntra.ManualTransfer.Messages.{
  is_err, handle, transfer_id_of, unknown, receive_new, receive_again, receive_known, receive_offer,
  handle_known, handle_protocol,
}
use syntra.ManualTransfer.Requests.{
  Preparation, found, refused, broken, offered, send_prepared, send_file, send_path, send_files,
  accept, overwrite, decline, cancel,
}
use syntra.ManualTransfer.Clock.{
  tick_record, for_each, keys_of, tick, refresh_record, refresh_routes,
}
use syntra.ManualTransfer.Remembered.{All-remove}
use syntra.ManualTransfer.Intact.{
  Intact, intact, handle-Intact, answer_offer-Intact, prepare_receiver-Intact,
  overwrite_record-Intact, decline_record-Intact, cancel_record-Intact, tick_record-Intact,
  refresh_record-Intact,
}
use syntra.ManualTransfer.Calls.{
  Call, by_send, by_message, by_accept, by_overwrite, by_decline, by_cancel, by_tick, by_refresh,
  Reachable, new, after,
}

module _ {P : Type 0} where
  abbrev Sound : ManualTransfers P → Type 0
  Sound s = All Intact s.records

  pub find-Intact :
      (records : List (Record P)) (key : RecordKey) (r : Record P)
      → find records key ≡ some r
      → All Intact records
      → Intact r
  unfolding find
  find-Intact [] key r h a = cc
  find-Intact (x ∷ records) key r h (i, a) = elim (Bool-cases (same (key_of x) key)) [
    | inl t ↦ let e : x ≡ r = ground arith in subst (λ y. Intact y) e i
    | inr f ↦ find-Intact records key r (rw f at h) a
  ]

  trim-Sound :
      (records : List (Record P)) (keys : List RecordKey)
      → All Intact records
      → Sound (trim records keys)
  unfolding trim
  trim-Sound records [] a = a
  trim-Sound records (oldest ∷ keys) a =
      let rest = trim-Sound (remove records oldest) keys (All-remove Intact records oldest a) in
      elim (Bool-cases (ltb max_terminal (length (oldest ∷ keys)))) [
        | inl y ↦ rw (y) rest
        | inr n ↦ rw (n) a
      ]

  store-Sound : (s : ManualTransfers P) (r : Record P) → Intact r → Sound s → Sound (store s r)
  unfolding store
  store-Sound s r i a =
      trim-Sound (r ∷ remove s.records (key_of r)) _ (i, All-remove Intact s.records (key_of r) a)

  on_record-Sound :
      (s : ManualTransfers P) (key : RecordKey) (otherwise : List (ManualAction P))
      (step : Record P → Record P × List (ManualAction P))
      → ((r : Record P) → Intact r → Intact (step r).0)
      → Sound s
      → Sound (on_record s key (find s.records key) otherwise step).0
  unfolding on_record put_back
  on_record-Sound s key otherwise step keeps a = go (find s.records key) refl
    where
      go :
          (o : Option (Record P))
          → find s.records key ≡ o
          → Sound (on_record s key o otherwise step).0
      go none h = a
      go (some r) h =
          store-Sound (record s { records = remove s.records key }) (step r).0
            (keeps r (find-Intact s.records key r h a)) (All-remove Intact s.records key a)

  for_each-Sound :
      (step : Record P → Record P × List (ManualAction P))
      → ((r : Record P) → Intact r → Intact (step r).0)
      → (keys : List RecordKey) (s : ManualTransfers P) → Sound s
      → Sound (for_each step keys s).0
  unfolding for_each
  for_each-Sound step keeps [] s a = a
  for_each-Sound step keeps (key ∷ keys) s a =
      for_each-Sound step keeps keys _ (on_record-Sound s key [] step keeps a)

  module _ (lib : Library) where
    send_file-Sound :
        (s : ManualTransfers P) (peer : P) (fingerprint : Bytes) (now : ℕ) (o : Option ℕ)
        (preparation : Preparation)
        → Sound s
        → Sound (send_file lib s peer fingerprint now preparation o).0.0
    unfolding send_file send_prepared offered new_record intact
    send_file-Sound s peer fingerprint now none preparation a = a
    send_file-Sound s peer fingerprint now (some id) (found name size) a =
        store-Sound s (offered peer fingerprint id name size now) refl a
    send_file-Sound s peer fingerprint now (some id) (refused e) a = a
    send_file-Sound s peer fingerprint now (some id) (broken message) a = a

    send_path-Sound :
        (s : ManualTransfers P) (peer : P) (fingerprint : Bytes) (now : ℕ) (draws : List (Option ℕ))
        (preparation : Preparation)
        → Sound s
        → Sound (send_path lib s peer fingerprint now draws preparation).0.0
    unfolding send_path
    send_path-Sound s peer fingerprint now draws preparation a =
        let id = next_transfer_id s.records draws in
        elim (Bool-cases (leb max_records (active s.records))) [
          | inl t ↦ rw (t) a
          | inr f ↦ rw (f) (send_file-Sound s peer fingerprint now id preparation a)
        ]

    send_files-Sound :
        (s : ManualTransfers P) (peer : P) (fingerprint : Bytes)
        (paths : List (List (Option ℕ) × Preparation)) (now : ℕ)
        → Sound s
        → Sound (send_files lib s peer fingerprint paths now).0
    unfolding send_files
    send_files-Sound s peer fingerprint [] now a = a
    send_files-Sound s peer fingerprint ((draws, preparation) ∷ paths) now a =
        let step = send_path lib s peer fingerprint now draws preparation in
        let v = send_path-Sound s peer fingerprint now draws preparation a in
        elim (Bool-cases step.1) [
          | inl t ↦ rw (t) (send_files-Sound step.0.0 peer fingerprint paths now v)
          | inr f ↦ rw (f) v
        ]

    receive_known-Sound :
        (disk : Disk) (s : ManualTransfers P) (peer : P) (fingerprint : Bytes) (id : ℕ)
        (name : Bytes) (size : ℕ) (settings : FileReceiveSettings) (now : ℕ) (o : Option (Record P))
        → find s.records (fingerprint, id) ≡ o
        → Sound s
        → Sound (receive_known lib disk s peer fingerprint id name size settings now o).0
    unfolding receive_known receive_again receive_new new_record intact
    receive_known-Sound disk s peer fingerprint id name size settings now (some r) h a =
        elim (Bool-cases (
          not (is_receiving r.direction) || (not (bytes_eq r.name name) || not (r.size == size)))) [
            | inl t ↦ rw (t) a
            | inr n ↦ rw (n) (
                (
                  find-Intact s.records (fingerprint, id) r h a,
                  All-remove Intact s.records (fingerprint, id) a,
                ))
          ]
    receive_known-Sound disk s peer fingerprint id name size settings now none h a =
        elim (Bool-cases (leb max_records (active s.records))) [
          | inl t ↦ rw (t) a
          | inr f ↦ rw (f) (store-Sound s _ (answer_offer-Intact lib disk _ settings now refl) a)
        ]

    handle_known-Sound :
        (disk : Disk) (s : ManualTransfers P) (peer : P) (fingerprint : Bytes) (event : ProtoEvent)
        (now : ℕ) (o : Option ℕ)
        → Sound s
        → Sound (handle_known lib disk s peer fingerprint event now o).0
    unfolding handle_known
    handle_known-Sound disk s peer fingerprint event now none a = a
    handle_known-Sound disk s peer fingerprint event now (some id) a =
        on_record-Sound s (fingerprint, id) (unknown lib peer event)
          (λ r. handle lib disk (record r { peer = peer }) event now)
          (λ r i. handle-Intact lib disk (record r { peer = peer }) event now i) a

    handle_protocol-Sound :
        (disk : Disk) (s : ManualTransfers P) (peer : P) (fingerprint : Bytes) (event : ProtoEvent)
        (settings : FileReceiveSettings) (now : ℕ)
        → Sound s
        → Sound (handle_protocol lib disk s peer fingerprint event settings now).0
    unfolding handle_protocol receive_offer
    handle_protocol-Sound disk s peer fingerprint (ProtoEvent.manual_file_offer id name size)
          settings now a =
        elim (Bool-cases (id == 0 || is_err (validate_manual_file_name name))) [
          | inl t ↦ rw (t) a
          | inr f ↦ rw (f) (
              receive_known-Sound disk s peer fingerprint id name size settings now
                (find s.records (fingerprint, id)) refl a)
        ]
    handle_protocol-Sound disk s peer fingerprint event settings now a =
        handle_known-Sound disk s peer fingerprint event now (transfer_id_of event) a

    call-Sound : {s t : ManualTransfers P} → Call lib s t → Sound s → Sound t
    unfolding accept overwrite decline cancel tick refresh_routes
    call-Sound {s} (by_send peer fingerprint paths now) a =
        send_files-Sound s peer fingerprint paths now a
    call-Sound {s} (by_message disk peer fingerprint event settings now) a =
        handle_protocol-Sound disk s peer fingerprint event settings now a
    call-Sound {s} (by_accept disk fingerprint id directory now) a =
        on_record-Sound s (fingerprint, id) [] _
          (λ r i. prepare_receiver-Intact lib disk r directory now false i) a
    call-Sound {s} (by_overwrite disk fingerprint id directory now) a =
        on_record-Sound s (fingerprint, id) [] _
          (λ r i. overwrite_record-Intact lib disk r directory now i) a
    call-Sound {s} (by_decline fingerprint id now) a =
        on_record-Sound s (fingerprint, id) [] _ (λ r i. decline_record-Intact r now i) a
    call-Sound {s} (by_cancel fingerprint id now) a =
        on_record-Sound s (fingerprint, id) [] _ (λ r i. cancel_record-Intact r now i) a
    call-Sound {s} (by_tick now) a =
        for_each-Sound (λ r. tick_record r now) (λ r i. tick_record-Intact r now i)
          (keys_of s.records) s a
    call-Sound {s} (by_refresh routes now) a =
        for_each-Sound (λ r. refresh_record r (routes r.fingerprint) now)
          (λ r i. refresh_record-Intact r (routes r.fingerprint) now i) (keys_of s.records) s a

    pub reachable-Intact : {s : ManualTransfers P} → Reachable lib s → All Intact s.records
    unfolding empty
    reachable-Intact new = tt
    reachable-Intact (after h c) = call-Sound c (reachable-Intact h)
