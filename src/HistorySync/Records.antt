-- ===== src/HistorySync/Records.antt =====
-- The map of pending records of crates/syntra-core/src/history_sync.rs: its sums, and what stays in it.
use syntra.Prelude.{
  ℕ, ◌+◌, ◌≤◌, ◌≡◌, refl, subst, true, none, some, [], ◌∷◌, arith, length, All, Bool-cases, inl,
  inr,
}
use syntra.Prelude.Equality.{Equality}
use syntra.HistorySync.Reassembler.{Key, Records, PendingRecord, same, find, remove, update}

-- The bytes that the records will take.
unfoldable pub total : {P : Type 0} → Records P → ℕ
total [] = 0
total (entry ∷ entries) = entry.1.total_len + total entries

module _ {P : Type 0} ⦃e : Equality P⦄ where
  -- No key stands twice.
  unfoldable pub IsUnique : Records P → Type 0
  IsUnique [] = Unit
  IsUnique (entry ∷ entries) = (find entries entry.0 ≡ none) × IsUnique entries

  pub same_sound : (a b : Key P) → same a b ≡ true → a ≡ b
  same_sound (p, r, i) (q, s, j) h = ground (arith, e.eq_sound p q)

  pub same_refl : (a : Key P) → same a a ≡ true
  same_refl (p, r, i) = ground (arith, e.eq_refl p)

  pub total-remove :
      (rs : Records P) (k : Key P) (p : PendingRecord)
      → find rs k ≡ some p
      → total (remove rs k) + p.total_len ≡ total rs
  unfolding find remove total
  total-remove [] k p h = cc
  total-remove (entry ∷ rs) k p h = ground (arith, total-remove rs k p)

  pub length-remove : (rs : Records P) (k : Key P) → length (remove rs k) ≤ length rs
  unfolding remove
  length-remove [] k = ground arith
  length-remove (entry ∷ rs) k = ground (arith, length-remove rs k)

  pub length-update :
      (rs : Records P) (k : Key P) (p : PendingRecord) → length (update rs k p) ≡ length rs
  unfolding update
  length-update [] k p = refl
  length-update (entry ∷ rs) k p = ground (arith, length-update rs k p)

  pub total-update :
      (rs : Records P) (k : Key P) (p q : PendingRecord)
      → find rs k ≡ some p
      → q.total_len ≡ p.total_len
      → total (update rs k q) ≡ total rs
  unfolding find update total
  total-update [] k p q h t = refl
  total-update (entry ∷ rs) k p q h t = ground (arith, total-update rs k p q)

  pub remove_absent :
      (rs : Records P) (k x : Key P) → find rs x ≡ none → find (remove rs k) x ≡ none
  unfolding find remove
  remove_absent [] k x h = refl
  remove_absent (entry ∷ rs) k x h = ground (arith, remove_absent rs k x)

  pub update_absent :
      (rs : Records P) (k x : Key P) (q : PendingRecord)
      → find rs x ≡ none
      → find (update rs k q) x ≡ none
  unfolding find update
  update_absent [] k x q h = refl
  update_absent (entry ∷ rs) k x q h = ground (arith, update_absent rs k x q)

  pub find-update :
      (rs : Records P) (k : Key P) (p q : PendingRecord)
      → find rs k ≡ some p
      → find (update rs k q) k ≡ some q
  unfolding find update
  find-update [] k p q h = cc
  find-update (entry ∷ rs) k p q h = ground (arith, find-update rs k p q)

  pub find-remove : (rs : Records P) (k : Key P) → IsUnique rs → find (remove rs k) k ≡ none
  unfolding find remove IsUnique
  find-remove [] k u = refl
  find-remove (entry ∷ rs) k u = elim (Bool-cases (same entry.0 k)) [
    | inl t ↦ rw (t) (subst (λ x. find rs x ≡ none) (same_sound entry.0 k t) u.0)
    | inr f ↦ rw (f, f) (find-remove rs k u.1)
  ]

  pub remove-IsUnique : (rs : Records P) (k : Key P) → IsUnique rs → IsUnique (remove rs k)
  unfolding remove IsUnique
  remove-IsUnique [] k u = tt
  remove-IsUnique (entry ∷ rs) k u = elim (Bool-cases (same entry.0 k)) [
    | inl t ↦ rw (t) (u.1)
    | inr f ↦ rw (f) (remove_absent rs k entry.0 u.0, remove-IsUnique rs k u.1)
  ]

  pub update-IsUnique :
      (rs : Records P) (k : Key P) (q : PendingRecord) → IsUnique rs → IsUnique (update rs k q)
  unfolding update IsUnique
  update-IsUnique [] k q u = tt
  update-IsUnique (entry ∷ rs) k q u = elim (Bool-cases (same entry.0 k)) [
    | inl t ↦ rw (t) (u.0, u.1)
    | inr f ↦ rw (f) (update_absent rs k entry.0 q u.0, update-IsUnique rs k q u.1)
  ]

  module _ (Q : PendingRecord → Type 0) where
    pub find-All :
        (rs : Records P) (k : Key P) (p : PendingRecord)
        → All (λ entry. Q entry.1) rs
        → find rs k ≡ some p
        → Q p
    unfolding find
    find-All [] k p a h = cc
    find-All (entry ∷ rs) k p a h = elim (Bool-cases (same entry.0 k)) [
      | inl t ↦ subst Q (some-injective (rw t at h)) a.0
      | inr f ↦ find-All rs k p a.1 (rw f at h)
    ]
      where
        some-injective : {x y : PendingRecord} → some x ≡ some y → x ≡ y
        some-injective h' = cc

    pub remove-All :
        (rs : Records P) (k : Key P)
        → All (λ entry. Q entry.1) rs
        → All (λ entry. Q entry.1) (remove rs k)
    unfolding remove
    remove-All [] k a = tt
    remove-All (entry ∷ rs) k a = elim (Bool-cases (same entry.0 k)) [
      | inl t ↦ rw (t) (a.1)
      | inr f ↦ rw (f) (a.0, remove-All rs k a.1)
    ]

    pub update-All :
        (rs : Records P) (k : Key P) (q : PendingRecord)
        → Q q
        → All (λ entry. Q entry.1) rs
        → All (λ entry. Q entry.1) (update rs k q)
    unfolding update
    update-All [] k q h a = tt
    update-All (entry ∷ rs) k q h a = elim (Bool-cases (same entry.0 k)) [
      | inl t ↦ rw (t) (h, a.1)
      | inr f ↦ rw (f) (a.0, update-All rs k q h a.1)
    ]
