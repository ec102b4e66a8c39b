-- ===== src/Clients/Maps.antt =====
-- The ordered map of handles that crates/syntra-core/src/client.rs keeps: what a lookup finds after each
-- change.
use syntra.Prelude.{
  ℕ, ◌+◌, ◌≤◌, ◌<◌, ◌≡◌, refl, false, Option, none, some, List, [], ◌∷◌, arith, ltb, ◌==◌,
  if◌then◌else◌, Bool-cases, inl, inr,
}
use syntra.Clients.Manager.{lookup, insert, delete, modify}

module _ {ℓ} {V : Type ℓ} where
  abbrev pub map_option : (V → V) → Option V → Option V
  map_option change none = none
  map_option change (some v) = some (change v)

  -- All handles are above the bound, in their order.
  unfoldable pub IsSorted : ℕ → List (ℕ × V) → Type 0
  IsSorted bound [] = Unit
  IsSorted bound ((h, v) ∷ entries) = (bound ≤ h) × IsSorted (h + 1) entries

  pub lookup_below :
      (entries : List (ℕ × V)) (bound handle : ℕ)
      → IsSorted bound entries
      → handle < bound
      → lookup entries handle ≡ none
  unfolding lookup IsSorted
  lookup_below [] bound handle s lt = refl
  lookup_below ((h, v) ∷ entries) bound handle (le, s) lt =
      let other : (h == handle) ≡ false = ground arith in
      rw (other) (lookup_below entries (h + 1) handle s (omega arith))

  pub lookup-insert :
      (entries : List (ℕ × V)) (handle : ℕ) (value : V) (k : ℕ)
      → lookup (insert entries handle value) k
        ≡ (if handle == k then some value else lookup entries k)
  unfolding lookup insert
  lookup-insert [] handle value k = refl
  lookup-insert ((h, v) ∷ entries) handle value k =
      let rest = lookup-insert entries handle value k in ground (arith, rest)

  pub insert-IsSorted :
      (entries : List (ℕ × V)) (bound handle : ℕ) (value : V)
      → bound ≤ handle
      → IsSorted bound entries
      → IsSorted bound (insert entries handle value)
  unfolding insert IsSorted
  insert-IsSorted [] bound handle value le s = (le, tt)
  insert-IsSorted ((h, v) ∷ entries) bound handle value le (above, s) =
      elim (Bool-cases (ltb handle h)) [
        | inl t ↦ rw (t) ((le, (ground arith, s)))
        | inr f ↦ elim (Bool-cases (h == handle)) [
          | inl q ↦ let same : h ≡ handle = ground arith in rw (f, q) ((le, rw⁻¹ (same) s))
          | inr n ↦
              rw (f, n) ((above, insert-IsSorted entries (h + 1) handle value (ground arith) s))
        ]
      ]

  pub lookup-modify :
      (change : V → V) (entries : List (ℕ × V)) (handle k : ℕ)
      → lookup (modify change entries handle) k
        ≡ (if handle == k then map_option change (lookup entries k) else lookup entries k)
  unfolding lookup modify
  lookup-modify change [] handle k = ground arith
  lookup-modify change ((h, v) ∷ entries) handle k =
      let rest = lookup-modify change entries handle k in ground (arith, rest)

  pub modify-IsSorted :
      (change : V → V) (entries : List (ℕ × V)) (bound handle : ℕ)
      → IsSorted bound entries
      → IsSorted bound (modify change entries handle)
  unfolding modify IsSorted
  modify-IsSorted change [] bound handle s = s
  modify-IsSorted change ((h, v) ∷ entries) bound handle (le, s) = elim (Bool-cases (h == handle)) [
    | inl t ↦ rw (t) ((le, s))
    | inr f ↦ rw (f) ((le, modify-IsSorted change entries (h + 1) handle s))
  ]

  pub lookup-delete :
      (entries : List (ℕ × V)) (bound handle k : ℕ)
      → IsSorted bound entries
      → lookup (delete entries handle) k ≡ (if handle == k then none else lookup entries k)
  unfolding lookup delete IsSorted
  lookup-delete [] bound handle k s = ground arith
  lookup-delete ((h, v) ∷ entries) bound handle k (le, s) =
      let rest = lookup-delete entries (h + 1) handle k s in
      elim (Bool-cases (h == k)) [
        | inl t ↦
            let below = lookup_below entries (h + 1) k s (ground arith) in
            ground (arith, rest, below)
        | inr f ↦ ground (arith, rest)
      ]

  IsSorted-le :
      (entries : List (ℕ × V)) (low high : ℕ)
      → low ≤ high
      → IsSorted high entries
      → IsSorted low entries
  unfolding IsSorted
  IsSorted-le [] low high le s = tt
  IsSorted-le ((h, v) ∷ entries) low high le (above, s) = (omega arith, s)

  pub delete-IsSorted :
      (entries : List (ℕ × V)) (bound handle : ℕ)
      → IsSorted bound entries
      → IsSorted bound (delete entries handle)
  unfolding delete IsSorted
  delete-IsSorted [] bound handle s = s
  delete-IsSorted ((h, v) ∷ entries) bound handle (le, s) = elim (Bool-cases (h == handle)) [
    | inl t ↦ rw (t) (IsSorted-le entries bound (h + 1) (omega arith) s)
    | inr f ↦ rw (f) ((le, delete-IsSorted entries (h + 1) handle s))
  ]
