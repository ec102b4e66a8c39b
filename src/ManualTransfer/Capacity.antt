-- ===== src/ManualTransfer/Capacity.antt =====
-- crates/syntra-core/src/manual_transfer.rs: how many transfers the table holds.
use syntra.Prelude.{
  ℕ, ◌+◌, ◌≤◌, ◌<◌, ◌≡◌, refl, true, Option, none, some, List, [], ◌∷◌, ◌++◌, arith, ltb, length,
  inl, inr, Bool-cases, if◌then◌else◌, ◌&&◌, not,
}
use syntra.ManualTransfer.Record.{Record, ManualAction, is_terminal}
use syntra.ManualTransfer.Remembered.{Kept, store-Kept, removed-Kept}
use syntra.ManualTransfer.Table.{
  RecordKey, same, ManualTransfers, max_records, max_terminal, contains, key_of, find, remove,
  active, trim, store, put_back, on_record,
}

-- What a call leaves of the bounds: no more active transfers than before, and no more ended ones in the
-- queue than it holds; and what is said of those that have ended.
pub record NoMore {P : Type 0} (s t : ManualTransfers P) : Type 0 where
  pub active_le : active t.records ≤ active s.records
  pub terminal_le : length s.terminal ≤ max_terminal → length t.terminal ≤ max_terminal
  pub kept : Kept s → Kept t

module _ {P : Type 0} where
  unfoldable pub weight : Record P → ℕ
  weight r = if is_terminal r.state then 0 else 1

  pub active-remove :
      (records : List (Record P)) (key : RecordKey) → active (remove records key) ≤ active records
  unfolding active remove
  active-remove [] key = omega arith
  active-remove (r ∷ records) key =
      let rest = active-remove records key in
      elim (Bool-cases (same (key_of r) key)) [
        | inl t ↦ rw (t) (omega arith)
        | inr f ↦ rw (f) (omega (arith, rest))
      ]

  pub active-find :
      (records : List (Record P)) (key : RecordKey) (r : Record P)
      → find records key ≡ some r
      → weight r + active (remove records key) ≡ active records
  unfolding active remove find weight
  active-find [] key r h = cc
  active-find (x ∷ records) key r h = elim (Bool-cases (same (key_of x) key)) [
    | inl t ↦ ground arith
    | inr f ↦ let rest = active-find records key r (ground arith) in ground (arith, rest)
  ]

  trim_le :
      (records : List (Record P)) (keys : List RecordKey)
      → (active (trim records keys).records ≤ active records)
        × (length (trim records keys).terminal ≤ max_terminal)
  unfolding trim
  trim_le records [] = (omega arith, omega arith)
  trim_le records (oldest ∷ keys) =
      let (a, t) = trim_le (remove records oldest) keys in
      let b = active-remove records oldest in
      elim (Bool-cases (ltb max_terminal (length (oldest ∷ keys)))) [
        | inl y ↦ rw (y) ((omega arith, t))
        | inr n ↦ rw (n) ((omega arith, ground arith))
      ]

  pub store_le :
      (s : ManualTransfers P) (r : Record P)
      → (active (store s r).records ≤ weight r + active s.records)
        × (length (store s r).terminal ≤ max_terminal)
  unfolding store active weight
  store_le s r =
      let keys =
        if is_terminal r.state && not (contains s.terminal (key_of r))
        then s.terminal ++ key_of r ∷ []
        else s.terminal in
      let (a, t) = trim_le (r ∷ remove s.records (key_of r)) keys in
      let b = active-remove s.records (key_of r) in (omega (arith, a, b), t)

  weight_le :
      (r next : Record P)
      → (is_terminal r.state ≡ true → is_terminal next.state ≡ true)
      → weight next ≤ weight r
  unfolding weight
  weight_le r next ends = elim (Bool-cases (is_terminal r.state)) [
    | inl t ↦ let e = ends t in ground (arith, e)
    | inr f ↦ ground arith
  ]

  pub on_record-NoMore :
      (s : ManualTransfers P) (key : RecordKey) (otherwise : List (ManualAction P))
      (step : Record P → Record P × List (ManualAction P))
      → ((r : Record P) → is_terminal r.state ≡ true → is_terminal (step r).0.state ≡ true)
      → NoMore s (on_record s key (find s.records key) otherwise step).0
  unfolding on_record put_back
  on_record-NoMore s key otherwise step ends = go (find s.records key) refl
    where
      go :
          (o : Option (Record P))
          → find s.records key ≡ o
          → NoMore s (on_record s key o otherwise step).0
      go none h = record { active_le = omega arith; terminal_le = λ x. x; kept = λ k. k }
      go (some r) h =
          let (a, t) = store_le (record s { records = remove s.records key }) (step r).0 in
          let w = weight_le r (step r).0 (ends r) in
          let f = active-find s.records key r h in
          record {
            active_le = omega (arith, a, w, f);
            terminal_le = λ x. t;
            kept = λ k.
                store-Kept (record s { records = remove s.records key }) (step r).0
                  (removed-Kept s key k);
          }

-- At most so many transfers are active, and so many keys of ended ones are queued; all ended ones are.
pub record Within {P : Type 0} (s : ManualTransfers P) : Type 0 where
  pub active_le : active s.records ≤ max_records
  pub terminal_le : length s.terminal ≤ max_terminal
  pub kept : Kept s

module _ {P : Type 0} where
  pub NoMore-Within : {s t : ManualTransfers P} → NoMore s t → Within s → Within t
  NoMore-Within n w = record {
    active_le = omega (arith, n.active_le, w.active_le);
    terminal_le = n.terminal_le w.terminal_le;
    kept = n.kept w.kept;
  }

  pub store-Within :
      (s : ManualTransfers P) (r : Record P)
      → Kept s
      → active s.records < max_records
      → Within (store s r)
  unfolding weight
  store-Within s r k room =
      let (a, t) = store_le s r in
      record { active_le = ground (arith, a); terminal_le = t; kept = store-Kept s r k }
