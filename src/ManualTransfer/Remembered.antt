-- ===== src/ManualTransfer/Remembered.antt =====
-- crates/syntra-core/src/manual_transfer.rs: the transfers that have ended and are still in the table.
use syntra.Prelude.{
  ℕ, suc, ◌+◌, ◌≤◌, ◌≡◌, refl, sym, subst, ◌∙◌, true, false, false≢true, Option, none, some, List,
  [], ◌∷◌, ◌++◌, arith, ltb, length, inl, inr, Bool-cases, if◌then◌else◌, ◌&&◌, not, All,
  bytes_eq_sound, bytes_eq_refl,
}
use syntra.ManualTransfer.Record.{Record, ManualAction, is_terminal}
use syntra.ManualTransfer.Table.{
  RecordKey, same, ManualTransfers, max_terminal, contains, key_of, find, remove, trim, store,
  put_back, on_record,
}

same_sound : (a b : RecordKey) → same a b ≡ true → a ≡ b
unfolding same
same_sound (f, i) (g, j) h =
    let p : f ≡ g = bytes_eq_sound f g (ground arith) in
    let q : i ≡ j = ground arith in λ k. (p k, q k)

pub same_refl : (a : RecordKey) → same a a ≡ true
unfolding same
same_refl (f, i) = rw (bytes_eq_refl f) (ground arith)

-- A list of keys without the first one that is the key.
unfoldable without : List RecordKey → RecordKey → List RecordKey
without [] key = []
without (k ∷ keys) key = if same k key then keys else k ∷ without keys key

length-without :
    (keys : List RecordKey) (key : RecordKey)
    → contains keys key ≡ true
    → suc (length (without keys key)) ≡ length keys
unfolding contains without
length-without [] key h = cc
length-without (k ∷ keys) key h = elim (Bool-cases (same k key)) [
  | inl t ↦ rw (t) refl
  | inr f ↦ let rest = length-without keys key (rw f at h) in rw (f) (omega (arith, rest))
]

contains-without :
    (keys : List RecordKey) (key other : RecordKey)
    → same other key ≡ false
    → contains keys other ≡ true
    → contains (without keys key) other ≡ true
unfolding contains without
contains-without [] key other d h = h
contains-without (k ∷ keys) key other d h = elim (Bool-cases (same k key)) [
  | inl t ↦ rw (t) (elim (Bool-cases (same k other)) [
    | inl u ↦ absurd (false≢true (sym d ∙ subst (λ x. same x key ≡ true) (same_sound k other u) t))
    | inr f ↦ rw f at h
  ])
  | inr f ↦ rw (f) (elim (Bool-cases (same k other)) [
    | inl u ↦ rw (u) refl
    | inr g ↦ rw (g) (contains-without keys key other d (rw g at h))
  ])
]

contains-push :
    (keys : List RecordKey) (key other : RecordKey)
    → contains keys other ≡ true
    → contains (keys ++ key ∷ []) other ≡ true
unfolding contains
contains-push [] key other h = cc
contains-push (k ∷ keys) key other h = elim (Bool-cases (same k other)) [
  | inl u ↦ rw (u) refl
  | inr g ↦ rw (g) (contains-push keys key other (rw g at h))
]

contains-pushed : (keys : List RecordKey) (key : RecordKey) → contains (keys ++ key ∷ []) key ≡ true
unfolding contains
contains-pushed [] key = rw (same_refl key) refl
contains-pushed (k ∷ keys) key = elim (Bool-cases (same k key)) [
  | inl u ↦ rw (u) refl
  | inr g ↦ rw (g) (contains-pushed keys key)
]

module _ {P : Type 0} where
  -- How many transfers of the table have ended.
  unfoldable pub ended : List (Record P) → ℕ
  ended [] = 0
  ended (r ∷ records) = (if is_terminal r.state then 1 else 0) + ended records

  -- No record has the key.
  abbrev Absent : List (Record P) → RecordKey → Type 0
  Absent records key = All (λ (r : Record P). same (key_of r) key ≡ false) records

  -- No two records have the same key.
  unfoldable pub Apart : List (Record P) → Type 0
  Apart [] = Unit
  Apart (r ∷ records) = Absent records (key_of r) × Apart records

  -- The records that have ended are queued.
  abbrev pub Queued : List RecordKey → List (Record P) → Type 0
  Queued keys records =
      All (λ (r : Record P). is_terminal r.state ≡ true → contains keys (key_of r) ≡ true) records

  -- Records are told apart by their keys, and those that have ended are queued to be forgotten.
  pub record Kept (s : ManualTransfers P) : Type 0 where
    pub apart : Apart s.records
    pub queued : Queued s.terminal s.records

  pub All-remove {κ} :
      (Q : Record P → Type κ) (records : List (Record P)) (key : RecordKey)
      → All Q records
      → All Q (remove records key)
  unfolding remove
  All-remove Q [] key h = tt
  All-remove Q (r ∷ records) key (h, hs) = elim (Bool-cases (same (key_of r) key)) [
    | inl t ↦ rw (t) hs
    | inr f ↦ rw (f) ((h, All-remove Q records key hs))
  ]

  remove-Apart :
      (records : List (Record P)) (key : RecordKey) → Apart records → Apart (remove records key)
  unfolding remove Apart
  remove-Apart [] key a = tt
  remove-Apart (r ∷ records) key (h, a) = elim (Bool-cases (same (key_of r) key)) [
    | inl t ↦ rw (t) a
    | inr f ↦ rw (f) ((All-remove _ records key h, remove-Apart records key a))
  ]

  remove-Absent :
      (records : List (Record P)) (key : RecordKey)
      → Apart records
      → Absent (remove records key) key
  unfolding remove Apart
  remove-Absent [] key a = tt
  remove-Absent (r ∷ records) key (h, a) = elim (Bool-cases (same (key_of r) key)) [
    | inl t ↦ rw (t) (subst (λ k. Absent records k) (same_sound (key_of r) key t) h)
    | inr f ↦ rw (f) ((f, remove-Absent records key a))
  ]

  -- A queue of keys that another one replaces, for records without a key.
  requeue :
      (keys later : List RecordKey) (key : RecordKey) (records : List (Record P))
      → ((other : RecordKey)
          → same other key ≡ false
          → contains keys other ≡ true
          → contains later other ≡ true)
      → Absent records key
      → Queued keys records
      → Queued later records
  requeue keys later key [] f a q = tt
  requeue keys later key (r ∷ records) f (d, a) (h, q) =
      (λ t. f (key_of r) d (h t), requeue keys later key records f a q)

  -- There are no more of those that have ended than keys in the queue.
  ended_le :
      (records : List (Record P)) (keys : List RecordKey)
      → Apart records
      → Queued keys records
      → ended records ≤ length keys
  unfolding ended Apart
  ended_le [] keys a q = omega arith
  ended_le (r ∷ records) keys (d, a) (h, q) = elim (Bool-cases (is_terminal r.state)) [
    | inl t ↦
        let l = length-without keys (key_of r) (h t) in
        let rest = ended_le records (without keys (key_of r)) a (
          requeue keys (without keys (key_of r)) (key_of r) records
            (contains-without keys (key_of r)) d q) in
        rw (t) (omega (arith, l, rest))
    | inr f ↦ let rest = ended_le records keys a q in rw (f) (omega (arith, rest))
  ]

  pub Kept-ended :
      (s : ManualTransfers P)
      → Kept s
      → length s.terminal ≤ max_terminal
      → ended s.records ≤ max_terminal
  Kept-ended s k l = omega (arith, l, ended_le s.records s.terminal k.apart k.queued)

  trim-Kept :
      (records : List (Record P)) (keys : List RecordKey)
      → Apart records
      → Queued keys records
      → Kept (trim records keys)
  unfolding trim contains
  trim-Kept records [] a q = record { apart = a; queued = q }
  trim-Kept records (oldest ∷ keys) a q =
      let rest = trim-Kept (remove records oldest) keys (remove-Apart records oldest a) (
        requeue (oldest ∷ keys) keys oldest (remove records oldest) behind
          (remove-Absent records oldest a) (All-remove _ records oldest q)) in
      elim (Bool-cases (ltb max_terminal (length (oldest ∷ keys)))) [
        | inl y ↦ rw (y) rest
        | inr n ↦ rw (n) (record { apart = a; queued = q })
      ]
    where
      behind :
          (other : RecordKey)
          → same other oldest ≡ false
          → contains (oldest ∷ keys) other ≡ true
          → contains keys other ≡ true
      behind other d h = elim (Bool-cases (same oldest other)) [
        | inl u ↦ absurd (
            false≢true (
              sym d
              ∙ subst (λ x. same x oldest ≡ true) (same_sound oldest other u) (same_refl oldest)))
        | inr f ↦ rw f at h
      ]

  pub store-Kept : (s : ManualTransfers P) (r : Record P) → Kept s → Kept (store s r)
  unfolding store Apart
  store-Kept s r k =
      let key = key_of r in
      let absent = remove-Absent s.records key k.apart in
      let apart = remove-Apart s.records key k.apart in
      let queued = All-remove _ s.records key k.queued in
      elim (Bool-cases (is_terminal r.state && not (contains s.terminal key))) [
        | inl t ↦ rw (t) (
            trim-Kept (r ∷ remove s.records key) (s.terminal ++ key ∷ []) (absent, apart)
              (
                λ h. contains-pushed s.terminal key,
                requeue s.terminal (s.terminal ++ key ∷ []) key (remove s.records key)
                    (λ other d h. contains-push s.terminal key other h) absent queued,
              ))
        | inr f ↦ rw (f) (
            trim-Kept (r ∷ remove s.records key) s.terminal (absent, apart)
              (λ h. ground arith, queued))
      ]

  pub removed-Kept :
      (s : ManualTransfers P) (key : RecordKey)
      → Kept s
      → Kept (record s { records = remove s.records key })
  removed-Kept s key k = record {
    apart = remove-Apart s.records key k.apart;
    queued = All-remove _ s.records key k.queued;
  }

  pub found_lem :
      (records : List (Record P)) (keys : List RecordKey) (key : RecordKey) (r : Record P)
      → find records key ≡ some r
      → Queued keys records
      → (key_of r ≡ key) × (is_terminal r.state ≡ true → contains keys (key_of r) ≡ true)
  unfolding find
  found_lem [] keys key r h q = cc
  found_lem (x ∷ records) keys key r h (p, q) = elim (Bool-cases (same (key_of x) key)) [
    | inl t ↦
        let e : x ≡ r = ground arith in
        subst
          (λ (y : Record P).
            (key_of y ≡ key) × (is_terminal y.state ≡ true → contains keys (key_of y) ≡ true))
          e (same_sound (key_of x) key t, p)
    | inr f ↦ found_lem records keys key r (rw f at h) q
  ]

  -- A record that comes from another address.
  pub rerouted-Kept :
      (s : ManualTransfers P) (key : RecordKey) (r : Record P) (peer : P)
      → find s.records key ≡ some r
      → Kept s
      → Kept (record s { records = record r { peer = peer } ∷ remove s.records key })
  unfolding Apart
  rerouted-Kept s key r peer h k =
      let (e, q) = found_lem s.records s.terminal key r h k.queued in
      record {
        apart = (
          subst (λ x. Absent (remove s.records key) x) (sym e)
              (remove-Absent s.records key k.apart),
          remove-Apart s.records key k.apart,
        );
        queued = (q, All-remove _ s.records key k.queued);
      }

  pub on_record-Kept :
      (s : ManualTransfers P) (key : RecordKey) (o : Option (Record P))
      (otherwise : List (ManualAction P)) (step : Record P → Record P × List (ManualAction P))
      → Kept s
      → Kept (on_record s key o otherwise step).0
  unfolding on_record put_back
  on_record-Kept s key none otherwise step k = k
  on_record-Kept s key (some r) otherwise step k =
      store-Kept (record s { records = remove s.records key }) (step r).0 (removed-Kept s key k)
