-- ===== src/HistorySync/Invariant.antt =====
-- `Reassembler` of crates/syntra-core/src/history_sync.rs in any state that it can come to.
use syntra.Prelude.{
  ℕ, ◌+◌, ◌*◌, ◌%◌, ◌^◌, ◌≤◌, ◌<◌, ◌≡◌, refl, sym, ◌∙◌, false, not, ◌||◌, ◌&&◌, Option, none, some,
  arith, length, All, ltb, leb, ◌==◌, get_elem?, Bool-cases, inl, inr,
}
use syntra.Prelude.Equality.{Equality}
use syntra.Proto.Error.{Bytes}
use syntra.Proto.Limits.{div_ceil}
use syntra.HistorySync.Reassembler.{
  Key, PendingRecord, Reassembler, empty, find, update, start_new, start_at, start, release, finish,
  store, empty_slots, set_slot,
}
use syntra.HistorySync.Slots.{
  filled, filled-empty_slots, length-set_slot, filled-set_slot, gather-full,
}
use syntra.HistorySync.Records.{
  total, IsUnique, total-remove, length-remove, length-update, total-update, remove-IsUnique,
  update-IsUnique, find-All, remove-All, update-All,
}

-- A record that waits for chunks: its length is within the limit, it has as many slots as its length
-- needs, it counts the filled ones, and one is still empty.
pub record IsPending (p : PendingRecord) : Type 0 where
  pub positive : 0 < p.total_len
  pub limit : p.total_len ≤ 50331648
  pub enough : p.total_len ≤ length p.chunks * 1179
  pub needed : length p.chunks * 1179 < p.total_len + 1179
  pub counted : p.received ≡ filled p.chunks
  pub incomplete : filled p.chunks < length p.chunks

-- The number of chunks that `start` asks for.
pub new-IsPending :
    (total_len chunks now : ℕ)
    → (total_len == 0 || ltb 50331648 total_len) ≡ false
    → not (chunks == div_ceil total_len 1179 % 2 ^ 32) ≡ false
    → IsPending
        (record { received = 0; total_len = total_len; chunks = empty_slots chunks; started = now })
unfolding div_ceil
new-IsPending total_len chunks now h c =
    let (f, l) = filled-empty_slots chunks in
    record {
      positive = ground arith;
      limit = ground arith;
      enough = ground (arith, l);
      needed = ground (arith, l);
      counted = sym f;
      incomplete = ground (arith, l, f);
    }

module _ {P : Type 0} ⦃e : Equality P⦄ where
  -- The budget is the sum of the lengths of the records, which are at most 8 and wait for at most
  -- 48 MiB together.
  pub record IsValid (s : Reassembler P) : Type 0 where
    pub budget : s.pending_bytes ≡ total s.records
    pub limit : s.pending_bytes ≤ 50331648
    pub count : length s.records ≤ 8
    pub unique : IsUnique s.records
    pub pending : All (λ entry. IsPending entry.1) s.records

  pub empty-IsValid : IsValid (empty {P = P})
  unfolding empty total IsUnique
  empty-IsValid = record {
    budget = refl;
    limit = omega arith;
    count = omega arith;
    unique = tt;
    pending = tt;
  }

  pub release-IsValid :
      (s : Reassembler P) (k : Key P) (p : PendingRecord)
      → IsValid s
      → find s.records k ≡ some p
      → IsValid (release s k p)
  unfolding release
  release-IsValid s k p v h = record {
    budget = omega (arith, v.budget, total-remove s.records k p h);
    limit = omega (arith, v.limit);
    count = omega (arith, v.count, length-remove s.records k);
    unique = remove-IsUnique s.records k v.unique;
    pending = remove-All IsPending s.records k v.pending;
  }

  pub update-IsValid :
      (s : Reassembler P) (k : Key P) (p q : PendingRecord)
      → IsValid s
      → find s.records k ≡ some p
      → q.total_len ≡ p.total_len
      → IsPending q
      → IsValid (record s { records = update s.records k q })
  update-IsValid s k p q v h t i = record {
    budget = v.budget ∙ sym (total-update s.records k p q h t);
    limit = v.limit;
    count = omega (arith, v.count, length-update s.records k q);
    unique = update-IsUnique s.records k q v.unique;
    pending = update-All IsPending s.records k q i v.pending;
  }

  start_new-IsValid :
      (s : Reassembler P) (k : Key P) (total_len chunks now : ℕ)
      → IsValid s
      → find s.records k ≡ none
      → IsPending (record {
        received = 0;
        total_len = total_len;
        chunks = empty_slots chunks;
        started = now;
      })
      → IsValid (start_new s k total_len chunks now).0
  unfolding start_new total IsUnique
  start_new-IsValid s k total_len chunks now v h i =
      elim (Bool-cases (leb 8 (length s.records) || ltb 50331648 (s.pending_bytes + total_len))) [
        | inl t ↦ rw (t) v
        | inr f ↦ rw (f) (record {
          budget = omega (arith, v.budget);
          limit = ground arith;
          count = ground arith;
          unique = (h, v.unique);
          pending = (i, v.pending);
        })
      ]

  pub start-IsValid :
      (s : Reassembler P) (peer : P) (r i total_len chunks now : ℕ)
      → IsValid s
      → IsValid (start s peer r i total_len chunks now).0
  unfolding start start_at
  start-IsValid s peer r i total_len chunks now v =
      elim (Bool-cases (total_len == 0 || ltb 50331648 total_len)) [
        | inl t ↦ rw (t) v
        | inr f ↦ elim (Bool-cases (not (chunks == div_ceil total_len 1179 % 2 ^ 32))) [
          | inl t ↦ rw (f, t) v
          | inr g ↦
              rw (f, g)
                (go (find s.records (peer, r, i)) refl (new-IsPending total_len chunks now f g))
        ]
      ]
    where
      go :
          (o : Option PendingRecord)
          → find s.records (peer, r, i) ≡ o
          → IsPending (record {
            received = 0;
            total_len = total_len;
            chunks = empty_slots chunks;
            started = now;
          })
          → IsValid (start_at s (peer, r, i) total_len chunks now o).0
      go none h p = start_new-IsValid s (peer, r, i) total_len chunks now v h p
      go (some previous) h p =
          elim (Bool-cases (previous.total_len == total_len && length previous.chunks == chunks)) [
            | inl t ↦ rw (t) v
            | inr f ↦ rw (f) v
          ]

  -- What a call returned is there, and the state it leaves is valid.
  abbrev pub Returned : {R : Type 0} → Option (Reassembler P × R) → Type 0
  Returned none = ⊥
  Returned (some (s, r)) = IsValid s

  module _ {Event : Type 0} (deserialize : Bytes → Option Event) where
    pub store-Returned :
        (s : Reassembler P) (k : Key P) (p : PendingRecord) (index : ℕ) (bytes : Bytes)
        → IsValid s
        → find s.records k ≡ some p
        → get_elem? p.chunks index ≡ some none
        → Returned (store deserialize s k p index bytes)
    unfolding store finish
    store-Returned s k p index bytes v h g =
        let i = find-All IsPending s.records k p v.pending h in
        let slots = set_slot p.chunks index bytes in
        elim (Bool-cases (not ((p.received + 1) % 2 ^ 32 == length slots % 2 ^ 32))) [
          | inl t ↦ rw (t) (
              update-IsValid s k p _ v h refl (record {
                positive = i.positive;
                limit = i.limit;
                enough = rw (length-set_slot p.chunks index bytes) (i.enough);
                needed = rw (length-set_slot p.chunks index bytes) (i.needed);
                counted = ground (
                  arith,
                  i.counted,
                  i.incomplete,
                  i.needed,
                  i.limit,
                  filled-set_slot p.chunks index bytes g,
                );
                incomplete = ground (
                  arith,
                  i.counted,
                  i.incomplete,
                  i.needed,
                  i.limit,
                  filled-set_slot p.chunks index bytes g,
                  length-set_slot p.chunks index bytes,
                );
              }))
          | inr f ↦
              let (whole, e') = gather-full slots (
                ground (
                  arith,
                  i.counted,
                  i.incomplete,
                  i.needed,
                  i.limit,
                  filled-set_slot p.chunks index bytes g,
                  length-set_slot p.chunks index bytes,
                )) in
              rw (f, e') (release-IsValid s k p v h)
        ]
