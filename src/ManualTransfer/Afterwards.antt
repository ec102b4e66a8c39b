-- ===== src/ManualTransfer/Afterwards.antt =====
-- crates/syntra-core/src/manual_transfer.rs: messages about a transfer that has ended.
use syntra.Prelude.{
  ℕ, ◌≤◌, ◌≡◌, refl, subst, true, false, Option, some, List, [], ◌∷◌, arith, ltb, length, inl, inr,
  Bool-cases, ◌||◌, ◌&&◌, not, ◌==◌, bytes_eq,
}
use syntra.Proto.Error.{Bytes}
use syntra.Proto.Event.{ProtoEvent}
use syntra.Proto.Names.{validate_manual_file_name}
use syntra.ManualTransfer.Files.{Disk, Library}
use syntra.ManualTransfer.Record.{Record, is_terminal, is_receiving}
use syntra.ManualTransfer.Table.{
  RecordKey, ManualTransfers, FileReceiveSettings, max_terminal, contains, key_of, find, remove,
  trim, store, put_back, on_record,
}
use syntra.ManualTransfer.Messages.{
  is_err, transfer_id_of, receive_again, receive_known, receive_offer, handle_known,
  handle_protocol,
}
use syntra.ManualTransfer.Ended.{handle_ended}
use syntra.ManualTransfer.Remembered.{same_refl, found_lem}
use syntra.ManualTransfer.Capacity.{Within}
use syntra.ManualTransfer.Calls.{Reachable, reachable_bounds}

-- The transfer that a message is about, an offer included.
unfoldable pub subject : ProtoEvent → Option ℕ
subject (ProtoEvent.manual_file_offer id name size) = some id
subject event = transfer_id_of event

module _ {P : Type 0} where
  trim_short :
      (records : List (Record P)) (keys : List RecordKey)
      → length keys ≤ max_terminal
      → trim records keys ≡ record { records = records; terminal = keys }
  unfolding trim
  trim_short records [] l = refl
  trim_short records (oldest ∷ keys) l =
      let short : ltb max_terminal (length (oldest ∷ keys)) ≡ false = ground arith in
      rw (short) refl

  find_first :
      (r : Record P) (records : List (Record P)) (key : RecordKey)
      → key_of r ≡ key
      → find (r ∷ records) key ≡ some r
  unfolding find
  find_first r records key e =
      subst (λ k. find (r ∷ records) k ≡ some r) e (rw (same_refl (key_of r)) refl)

  find-store :
      (s : ManualTransfers P) (r : Record P) (key : RecordKey)
      → key_of r ≡ key
      → contains s.terminal (key_of r) ≡ true
      → length s.terminal ≤ max_terminal
      → find (store s r).records key ≡ some r
  unfolding store
  find-store s r key e queued l =
      let known : is_terminal r.state && not (contains s.terminal (key_of r)) ≡ false =
        ground arith in
      rw (known, trim_short (r ∷ remove s.records (key_of r)) s.terminal l)
        (find_first r (remove s.records (key_of r)) key e)

  module _ (lib : Library) (disk : Disk) (s : ManualTransfers P) (peer : P) (fingerprint : Bytes)
      (id : ℕ) (r : Record P) (now : ℕ) (w : Within s)
      (found : find s.records (fingerprint, id) ≡ some r) (over : is_terminal r.state ≡ true) where
    abbrev Stays : ManualTransfers P → Type 0
    Stays t = (x : P) × (find t.records (fingerprint, id) ≡ some (record r { peer = x }))

    unchanged : Stays s
    unchanged = (r.peer, found)

    handle_known-Stays :
        (event : ProtoEvent)
        → Stays (handle_known lib disk s peer fingerprint event now (some id)).0
    unfolding handle_known on_record put_back
    handle_known-Stays event =
        let (e, queued) = found_lem s.records s.terminal (fingerprint, id) r found w.kept.queued in
        (
          peer,
          rw (found, handle_ended lib disk (record r { peer = peer }) now over event)
              (find-store _ (record r { peer = peer }) (fingerprint, id) e (queued over)
                w.terminal_le),
        )

    receive_again-Stays :
        (name : Bytes) (size : ℕ) → Stays (receive_again lib s peer (fingerprint, id) name size r).0
    unfolding receive_again
    receive_again-Stays name size =
        let e = (found_lem s.records s.terminal (fingerprint, id) r found w.kept.queued).0 in
        elim (Bool-cases (
          not (is_receiving r.direction) || (not (bytes_eq r.name name) || not (r.size == size)))) [
            | inl t ↦ rw (t) unchanged
            | inr n ↦ rw (n) ((peer, find_first (record r { peer = peer }) _ (fingerprint, id) e))
          ]

    receive_offer-Stays :
        (name : Bytes) (size : ℕ) (settings : FileReceiveSettings)
        → Stays (receive_offer lib disk s peer fingerprint id name size settings now).0
    unfolding receive_offer receive_known
    receive_offer-Stays name size settings =
        elim (Bool-cases (id == 0 || is_err (validate_manual_file_name name))) [
          | inl t ↦ rw (t) unchanged
          | inr f ↦ rw (f, found) (receive_again-Stays name size)
        ]

module _ {P : Type 0} (lib : Library) where
  -- In every table that calls make, a message of any kind about a transfer that has ended, an offer of it
  -- included, leaves its record there as it is but for the address of the peer.
  pub handle_protocol-ended :
      (disk : Disk) (s : ManualTransfers P) (peer : P) (fingerprint : Bytes) (id : ℕ) (r : Record P)
      (event : ProtoEvent) (settings : FileReceiveSettings) (now : ℕ)
      → Reachable lib s
      → find s.records (fingerprint, id) ≡ some r
      → is_terminal r.state ≡ true
      → subject event ≡ some id
      → (x : P) × (find
            (handle_protocol lib disk s peer fingerprint event settings now).0.records
            (fingerprint, id)
          ≡ some (record r { peer = x }))
  unfolding handle_protocol subject
  handle_protocol-ended disk s peer fingerprint id r (ProtoEvent.manual_file_offer i name size)
        settings now reach found over about =
      let same_id : i ≡ id = ground arith in
      rw (same_id) (
        receive_offer-Stays lib disk s peer fingerprint id r now (reachable_bounds lib reach) found
          over name size settings)
  handle_protocol-ended disk s peer fingerprint id r event settings now reach found over about =
      rw (about) (
        handle_known-Stays lib disk s peer fingerprint id r now (reachable_bounds lib reach) found
          over event)
