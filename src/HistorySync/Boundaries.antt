-- ===== src/HistorySync/Boundaries.antt =====
-- The union of boundaries in crates/syntra-core/src/history_sync.rs.
use syntra.Prelude.{
  ℕ, suc, ◌≡◌, ap, refl, sym, subst, ◌∙◌, true, false, false≢true, List, max, Option, none, some,
  [], ◌∷◌, arith, bytes_eq, bytes_eq_sound, bytes_eq_refl, if◌then◌else◌, Bool-cases, inl, inr,
}
use syntra.Proto.Error.{Bytes}
use syntra.Proto.Event.{Boundary}
use syntra.Prelude.Equality.{Equality, equals}
use syntra.HistorySync.Clear.{
  lookup, raise, union_boundary, ClearCoordinator, contains, remove, add_boundary,
}

-- How far a boundary reaches for a device: 0 without an entry, and one more than its sequence with.
unfoldable pub reach : Option ℕ → ℕ
reach none = 0
reach (some sequence) = suc sequence

-- The furthest that the entries for a device reach.
unfoldable pub furthest : Boundary → Bytes → ℕ
furthest [] origin = 0
furthest ((known, sequence) ∷ entries) origin =
    if bytes_eq known origin
    then max (suc sequence) (furthest entries origin)
    else furthest entries origin

lookup-raise :
    (target : Boundary) (origin : Bytes) (sequence : ℕ) (other : Bytes)
    → reach (lookup (raise target origin sequence) other) ≡ (
        if bytes_eq origin other
        then max (reach (lookup target other)) (suc sequence)
        else reach (lookup target other))
unfolding lookup raise reach
lookup-raise [] origin sequence other = ground arith
lookup-raise ((known, reached) ∷ target) origin sequence other =
    elim (Bool-cases (bytes_eq known origin)) [
      | inl t ↦
          let q : bytes_eq known other ≡ bytes_eq origin other =
            ap (λ x. bytes_eq x other) (bytes_eq_sound known origin t) in
          rw (t) (ground (arith, q))
      | inr f ↦ rw (f) (
          ground (
            arith,
            lookup-raise target origin sequence other,
            f,
            bytes_eq_sound known other,
            bytes_eq_sound origin other,
            bytes_eq_refl other,
          ))
    ]

-- A union maps each device to the largest sequence number that either side has for it, and has an
-- entry for a device exactly if one of them has: a number counts as one more than itself, and a missing
-- entry as 0.
pub lookup-union_boundary :
    (target source : Boundary) (origin : Bytes)
    → reach (lookup (union_boundary target source) origin)
      ≡ max (reach (lookup target origin)) (furthest source origin)
unfolding union_boundary furthest
lookup-union_boundary target [] origin = omega arith
lookup-union_boundary target ((known, sequence) ∷ source) origin =
    elim (Bool-cases (bytes_eq known origin)) [
      | inl t ↦ rw (t) (
          omega (
            arith,
            lookup-union_boundary (raise target known sequence) source origin,
            rw t at (lookup-raise target known sequence origin),
          ))
      | inr f ↦ rw (f) (
          omega (
            arith,
            lookup-union_boundary (raise target known sequence) source origin,
            rw f at (lookup-raise target known sequence origin),
          ))
    ]

reach-injective : (a b : Option ℕ) → reach a ≡ reach b → a ≡ b
unfolding reach
reach-injective a b h = ground arith

union_boundary_order :
    (target first second : Boundary) (origin : Bytes)
    → lookup (union_boundary (union_boundary target first) second) origin
      ≡ lookup (union_boundary (union_boundary target second) first) origin
union_boundary_order target first second origin = reach-injective _ _ (
    omega (
      arith,
      lookup-union_boundary target first origin,
      lookup-union_boundary target second origin,
      lookup-union_boundary (union_boundary target first) second origin,
      lookup-union_boundary (union_boundary target second) first origin,
    ))

module _ {P : Type 0} ⦃e : Equality P⦄ where
  -- No peer stands twice.
  unfoldable pub IsUnique : List P → Type 0
  IsUnique [] = Unit
  IsUnique (p ∷ peers) = (contains peers p ≡ false) × IsUnique peers

  equals-sym : (p q : P) → equals p q ≡ false → equals q p ≡ false
  equals-sym p q d = elim (Bool-cases (equals q p)) [
    | inl t ↦
        absurd (
          false≢true
            (sym d ∙ subst (λ x. equals p x ≡ true) (sym (e.eq_sound q p t)) (e.eq_refl p)))
    | inr f ↦ f
  ]

  contains-removed : (peers : List P) (p : P) → IsUnique peers → contains (remove peers p) p ≡ false
  unfolding contains remove IsUnique
  contains-removed [] p u = refl
  contains-removed (x ∷ peers) p (n, u) = elim (Bool-cases (equals x p)) [
    | inl t ↦ rw (t) (subst (λ y. contains peers y ≡ false) (e.eq_sound x p t) n)
    | inr f ↦ rw (f, f) (contains-removed peers p u)
  ]

  contains-remove_other :
      (peers : List P) (p q : P)
      → equals p q ≡ false
      → contains (remove peers p) q ≡ contains peers q
  unfolding contains remove
  contains-remove_other [] p q d = refl
  contains-remove_other (x ∷ peers) p q d = elim (Bool-cases (equals x p)) [
    | inl t ↦
        let differ : equals x q ≡ false =
          subst (λ y. equals y q ≡ false) (sym (e.eq_sound x p t)) d in
        rw (t, differ) refl
    | inr f ↦ elim (Bool-cases (equals x q)) [
      | inl t ↦ rw (f, t) refl
      | inr g ↦ rw (f, g) (contains-remove_other peers p q d)
    ]
  ]

  -- What is known of the boundary after an answer.
  boundary_after : ClearCoordinator P → P → Boundary → Boundary
  boundary_after c peer boundary =
      if contains c.awaiting_boundaries peer then union_boundary c.boundary boundary else c.boundary

  add_boundary-after :
      (c : ClearCoordinator P) (p : P) (a : Boundary)
      → (add_boundary c p a).0.boundary ≡ boundary_after c p a
  unfolding add_boundary boundary_after
  add_boundary-after c p a = ground arith

  add_boundary-awaits :
      (c : ClearCoordinator P) (p q : P) (a : Boundary)
      → equals p q ≡ false
      → contains (add_boundary c p a).0.awaiting_boundaries q ≡ contains c.awaiting_boundaries q
  unfolding add_boundary
  add_boundary-awaits c p q a d = ground (arith, contains-remove_other c.awaiting_boundaries p q d)

  twice_after :
      (c : ClearCoordinator P) (p q : P) (a b : Boundary)
      → equals p q ≡ false
      → (add_boundary (add_boundary c p a).0 q b).0.boundary ≡ (
          if contains c.awaiting_boundaries q
          then union_boundary (boundary_after c p a) b
          else boundary_after c p a)
  unfolding boundary_after
  twice_after c p q a b d =
      add_boundary-after (add_boundary c p a).0 q b
      ∙ rw (add_boundary-awaits c p q a d, add_boundary-after c p a) refl

  boundary_orders :
      (c : ClearCoordinator P) (p q : P) (a b : Boundary) (origin : Bytes)
      → lookup
          (if contains c.awaiting_boundaries q
            then union_boundary (boundary_after c p a) b
            else boundary_after c p a)
          origin
        ≡ lookup
            (if contains c.awaiting_boundaries p
              then union_boundary (boundary_after c q b) a
              else boundary_after c q b)
            origin
  unfolding boundary_after
  boundary_orders c p q a b origin = elim (Bool-cases (contains c.awaiting_boundaries p)) [
    | inl t ↦ elim (Bool-cases (contains c.awaiting_boundaries q)) [
      | inl u ↦ rw (t, u) (union_boundary_order c.boundary a b origin)
      | inr f ↦ rw (t, f) refl
    ]
    | inr f ↦ elim (Bool-cases (contains c.awaiting_boundaries q)) [
      | inl u ↦ rw (f, u) refl
      | inr g ↦ rw (f, g) refl
    ]
  ]

  not_awaited :
      (c : ClearCoordinator P) (p : P) (boundary : Boundary)
      → contains c.awaiting_boundaries p ≡ false
      → add_boundary c p boundary ≡ (c, false)
  unfolding add_boundary
  not_awaited c p boundary h = rw (h) refl

  add_boundary-answered :
      (c : ClearCoordinator P) (p : P) (a : Boundary)
      → IsUnique c.awaiting_boundaries
      → contains (add_boundary c p a).0.awaiting_boundaries p ≡ false
  unfolding add_boundary
  add_boundary-answered c p a u = ground (arith, contains-removed c.awaiting_boundaries p u)

  -- When two peers answer a clear in either order, the boundary of every device comes to the same; and where no
  -- peer is awaited twice, a second answer of a peer changes nothing and is not told to be the last one.
  pub add_boundary_order :
      (c : ClearCoordinator P) (p q : P) (a b later : Boundary) (origin : Bytes)
      → equals p q ≡ false
      → IsUnique c.awaiting_boundaries
      → (lookup (add_boundary (add_boundary c p a).0 q b).0.boundary origin
          ≡ lookup (add_boundary (add_boundary c q b).0 p a).0.boundary origin)
        × (add_boundary (add_boundary c p a).0 p later ≡ ((add_boundary c p a).0, false))
  add_boundary_order c p q a b later origin d u = (
    rw (twice_after c p q a b d, twice_after c q p b a (equals-sym p q d))
        (boundary_orders c p q a b origin),
    not_awaited (add_boundary c p a).0 p later (add_boundary-answered c p a u),
  )
