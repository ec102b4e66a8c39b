-- ===== src/ManualTransfer/Admission.antt =====
-- crates/syntra-core/src/manual_transfer.rs: the calls that start a transfer leave room in the table.
use syntra.Prelude.{
  ℕ, ◌<◌, ◌≡◌, refl, Option, none, some, List, [], ◌∷◌, arith, leb, ◌==◌, inl, inr, Bool-cases,
  ◌||◌, not, bytes_eq,
}
use syntra.Proto.Error.{Bytes}
use syntra.Proto.Names.{validate_manual_file_name}
use syntra.ManualTransfer.Files.{Disk, Library}
use syntra.ManualTransfer.Record.{Record, is_receiving, receiving, awaiting_acceptance}
use syntra.ManualTransfer.Table.{
  RecordKey, ManualTransfers, FileReceiveSettings, max_records, find, active, new_record,
  next_transfer_id,
}
use syntra.ManualTransfer.Messages.{
  is_err, answer_offer, receive_new, receive_again, receive_known, receive_offer,
}
use syntra.ManualTransfer.Requests.{
  Preparation, found, refused, broken, offered, send_prepared, send_file, send_path, send_files,
}
use syntra.ManualTransfer.Remembered.{Kept, rerouted-Kept}
use syntra.ManualTransfer.Capacity.{weight, active-find, Within, store-Within}

module _ {P : Type 0} (lib : Library) where
  send_prepared-Within :
      (s : ManualTransfers P) (peer : P) (fingerprint : Bytes) (now id : ℕ)
      (preparation : Preparation)
      → Within s
      → active s.records < max_records
      → Within (send_prepared lib s peer fingerprint now id preparation).0
  unfolding send_prepared
  send_prepared-Within s peer fingerprint now id (found name size) w room =
      store-Within s (offered peer fingerprint id name size now) w.kept room
  send_prepared-Within s peer fingerprint now id (refused e) w room = w
  send_prepared-Within s peer fingerprint now id (broken message) w room = w

  send_file-Within :
      (s : ManualTransfers P) (peer : P) (fingerprint : Bytes) (now : ℕ) (preparation : Preparation)
      (id : Option ℕ)
      → Within s
      → active s.records < max_records
      → Within (send_file lib s peer fingerprint now preparation id).0.0
  unfolding send_file
  send_file-Within s peer fingerprint now preparation none w room = w
  send_file-Within s peer fingerprint now preparation (some id) w room =
      send_prepared-Within s peer fingerprint now id preparation w room

  send_path-Within :
      (s : ManualTransfers P) (peer : P) (fingerprint : Bytes) (now : ℕ) (draws : List (Option ℕ))
      (preparation : Preparation)
      → Within s
      → Within (send_path lib s peer fingerprint now draws preparation).0.0
  unfolding send_path
  send_path-Within s peer fingerprint now draws preparation w =
      elim (Bool-cases (leb max_records (active s.records))) [
        | inl t ↦ rw (t) w
        | inr f ↦ rw (f) (
            send_file-Within s peer fingerprint now preparation (next_transfer_id s.records draws) w
              (ground arith))
      ]

  pub send_files-Within :
      (s : ManualTransfers P) (peer : P) (fingerprint : Bytes)
      (paths : List (List (Option ℕ) × Preparation)) (now : ℕ)
      → Within s
      → Within (send_files lib s peer fingerprint paths now).0
  unfolding send_files
  send_files-Within s peer fingerprint [] now w = w
  send_files-Within s peer fingerprint ((draws, preparation) ∷ paths) now w =
      let step = send_path lib s peer fingerprint now draws preparation in
      let v = send_path-Within s peer fingerprint now draws preparation w in
      elim (Bool-cases step.1) [
        | inl t ↦ rw (t) (send_files-Within step.0.0 peer fingerprint paths now v)
        | inr f ↦ rw (f) v
      ]

  receive_new-Within :
      (disk : Disk) (s : ManualTransfers P) (r : Record P) (settings : FileReceiveSettings)
      (now : ℕ)
      → Kept s
      → active s.records < max_records
      → Within (receive_new lib disk s r settings now).0
  unfolding receive_new
  receive_new-Within disk s r settings now k room =
      store-Within s (answer_offer lib disk r settings now).0 k room

  -- The record of an offer that came before keeps its place.
  receive_again-Within :
      (s : ManualTransfers P) (peer : P) (key : RecordKey) (name : Bytes) (size : ℕ) (r : Record P)
      → find s.records key ≡ some r
      → Within s
      → Within (receive_again lib s peer key name size r).0
  unfolding receive_again weight active
  receive_again-Within s peer key name size r h w =
      let f = active-find s.records key r h in
      elim (Bool-cases
        (not (is_receiving r.direction) || (not (bytes_eq r.name name) || not (r.size == size)))) [
          | inl t ↦ rw (t) w
          | inr n ↦ rw (n) (record {
            active_le = ground (arith, f);
            terminal_le = w.terminal_le;
            kept = rerouted-Kept s key r peer h w.kept;
          })
        ]

  receive_known-Within :
      (disk : Disk) (s : ManualTransfers P) (peer : P) (fingerprint : Bytes) (id : ℕ) (name : Bytes)
      (size : ℕ) (settings : FileReceiveSettings) (now : ℕ) (o : Option (Record P))
      → find s.records (fingerprint, id) ≡ o
      → Within s
      → Within (receive_known lib disk s peer fingerprint id name size settings now o).0
  unfolding receive_known
  receive_known-Within disk s peer fingerprint id name size settings now (some r) h w =
      receive_again-Within s peer (fingerprint, id) name size r h w
  receive_known-Within disk s peer fingerprint id name size settings now none h w =
      elim (Bool-cases (leb max_records (active s.records))) [
        | inl t ↦ rw (t) w
        | inr f ↦ rw (f) (
            receive_new-Within disk s
              (record (new_record peer fingerprint id name size receiving awaiting_acceptance now) {
                destination = some settings.download_directory;
              })
              settings now w.kept (ground arith))
      ]

  pub receive_offer-Within :
      (disk : Disk) (s : ManualTransfers P) (peer : P) (fingerprint : Bytes) (id : ℕ) (name : Bytes)
      (size : ℕ) (settings : FileReceiveSettings) (now : ℕ)
      → Within s
      → Within (receive_offer lib disk s peer fingerprint id name size settings now).0
  unfolding receive_offer
  receive_offer-Within disk s peer fingerprint id name size settings now w =
      elim (Bool-cases (id == 0 || is_err (validate_manual_file_name name))) [
        | inl t ↦ rw (t) w
        | inr f ↦ rw (f) (
            receive_known-Within disk s peer fingerprint id name size settings now
              (find s.records (fingerprint, id)) refl w)
      ]
