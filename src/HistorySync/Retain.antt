-- ===== src/HistorySync/Retain.antt =====
-- `HashMap::retain` as crates/syntra-core/src/history_sync.rs uses it: what goes, what stays, and the
-- budget.
use syntra.Prelude.{
  ℕ, ◌+◌, ◌-◌, ◌≤◌, ◌≡◌, refl, Bool, none, [], ◌∷◌, arith, length, All, Bool-cases, inl, inr,
  if◌then◌else◌,
}
use syntra.Prelude.Equality.{Equality}
use syntra.HistorySync.Reassembler.{Key, Records, PendingRecord, find, retain}
use syntra.HistorySync.Records.{total, IsUnique}

-- The entries that pass the test.
unfoldable pub filter : {P : Type 0} → (Key P × PendingRecord → Bool) → Records P → Records P
filter keep [] = []
filter keep (entry ∷ entries) =
    let rest = filter keep entries in if keep entry then entry ∷ rest else rest

module _ {P : Type 0} ⦃e : Equality P⦄ (keep : Key P × PendingRecord → Bool) where
  pub retain-records : (rs : Records P) (b : ℕ) → (retain keep rs b).0.records ≡ filter keep rs
  unfolding retain filter
  retain-records [] b = refl
  retain-records (entry ∷ rs) b =
      ground (arith, retain-records rs b, retain-records rs (b - entry.1.total_len))

  -- The count is that of the entries that go.
  pub retain-count :
      (rs : Records P) (b : ℕ) → (retain keep rs b).1 + length (filter keep rs) ≡ length rs
  unfolding retain filter
  retain-count [] b = refl
  retain-count (entry ∷ rs) b =
      ground (arith, retain-count rs b, retain-count rs (b - entry.1.total_len))

  -- The budget loses the lengths of the entries that go.
  pub retain-budget :
      (rs : Records P) (b c : ℕ)
      → b ≡ total rs + c
      → (retain keep rs b).0.pending_bytes ≡ total (filter keep rs) + c
  unfolding retain filter total
  retain-budget [] b c h = h
  retain-budget (entry ∷ rs) b c h = elim (Bool-cases (keep entry)) [
    | inl t ↦
        rw (t) (omega (arith, h, retain-budget rs b (entry.1.total_len + c) (omega (arith, h))))
    | inr f ↦ rw (f) (retain-budget rs (b - entry.1.total_len) c (omega (arith, h)))
  ]

  pub total-filter : (rs : Records P) → total (filter keep rs) ≤ total rs
  unfolding filter total
  total-filter [] = omega arith
  total-filter (entry ∷ rs) = ground (arith, total-filter rs)

  pub filter_absent :
      (rs : Records P) (k : Key P) → find rs k ≡ none → find (filter keep rs) k ≡ none
  unfolding find filter
  filter_absent [] k h = refl
  filter_absent (entry ∷ rs) k h = ground (arith, filter_absent rs k)

  pub filter-IsUnique : (rs : Records P) → IsUnique rs → IsUnique (filter keep rs)
  unfolding filter IsUnique
  filter-IsUnique [] u = tt
  filter-IsUnique (entry ∷ rs) u = elim (Bool-cases (keep entry)) [
    | inl t ↦ rw (t) (filter_absent rs entry.0 u.0, filter-IsUnique rs u.1)
    | inr f ↦ rw (f) (filter-IsUnique rs u.1)
  ]

  pub filter-All :
      (Q : PendingRecord → Type 0) (rs : Records P)
      → All (λ entry. Q entry.1) rs
      → All (λ entry. Q entry.1) (filter keep rs)
  unfolding filter
  filter-All Q [] a = tt
  filter-All Q (entry ∷ rs) a = elim (Bool-cases (keep entry)) [
    | inl t ↦ rw (t) (a.0, filter-All Q rs a.1)
    | inr f ↦ rw (f) (filter-All Q rs a.1)
  ]
