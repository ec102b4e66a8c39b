-- ===== src/Profiles/Avatars.antt =====
-- crates/syntra-core/src/peer_profile.rs: how large what is kept and what is answered is.
use syntra.Prelude.{
  ℕ, suc, ◌+◌, ◌-◌, ◌*◌, ◌/◌, ◌≤◌, ◌<◌, ◌≡◌, refl, subst, Option, none, some, [], ◌∷◌, ltb, length,
  All, Bool-cases, inl, inr, bytes_eq, arith,
}
use syntra.Proto.Error.{Bytes}
use syntra.Proto.Limits.{max_profile_chunk_size}
use syntra.HistorySync.Reassembler.{gather}
use syntra.Profiles.Reassembler.{
  PeerAvatar, Partial, Reply, refused, answered, Peers, max_partials, find, remove_peer, expire,
  put, finish,
}
use syntra.Profiles.Slots.{Fits, length-gather}

-- What is kept of an avatar while it comes: at most 128 by 128 pixels, a slot for each chunk, and chunks of
-- the right size.
pub record IsFit (p : Partial) : Type 0 where
  pub width_le : p.width ≤ 128
  pub height_le : p.height ≤ 128
  pub slots : length p.chunks ≡ (p.width * p.height * 4 + 1186) / max_profile_chunk_size
  pub fits : Fits (p.width * p.height * 4) 0 p.chunks

-- An avatar has four bytes for each of its pixels, of which there are at most 128 by 128.
unfoldable pub IsWholeAvatar : Option PeerAvatar → Type 0
IsWholeAvatar none = Unit
IsWholeAvatar (some a) =
    (a.width ≤ 128) × (a.height ≤ 128) × (length a.rgba ≡ a.width * a.height * 4)

unfoldable pub IsWhole : Reply → Type 0
IsWhole (refused reason) = Unit
IsWhole (answered none) = Unit
IsWhole (answered (some profile)) = IsWholeAvatar profile.avatar

pub record IsValid (peers : Peers) : Type 0 where
  pub few : length peers ≤ max_partials
  pub fit : All (λ (entry : Bytes × Partial). IsFit entry.1) peers

pub remove_peer-IsValid :
    (peers : Peers) (fingerprint : Bytes)
    → All (λ (entry : Bytes × Partial). IsFit entry.1) peers
    → (length (remove_peer peers fingerprint) ≤ length peers)
      × All (λ (entry : Bytes × Partial). IsFit entry.1) (remove_peer peers fingerprint)
unfolding remove_peer
remove_peer-IsValid [] fingerprint a = (omega arith, tt)
remove_peer-IsValid ((f, p) ∷ peers) fingerprint (a, rest) =
    let (l, r) = remove_peer-IsValid peers fingerprint rest in
    elim (Bool-cases (bytes_eq f fingerprint)) [
      | inl t ↦ rw (t) ((omega arith, rest))
      | inr n ↦ rw (n) ((omega (arith, l), (a, r)))
    ]

-- A peer that is found leaves room for itself.
pub find-remove_peer :
    (peers : Peers) (fingerprint : Bytes) (p : Partial)
    → find peers fingerprint ≡ some p
    → All (λ (entry : Bytes × Partial). IsFit entry.1) peers
    → (length peers ≡ suc (length (remove_peer peers fingerprint))) × IsFit p
unfolding find remove_peer
find-remove_peer [] fingerprint p q a = absurd cc
find-remove_peer ((f, x) ∷ peers) fingerprint p q (a, rest) =
    elim (Bool-cases (bytes_eq f fingerprint)) [
      | inl t ↦ let same : x ≡ p = ground arith in rw (t) ((refl, subst IsFit same a))
      | inr n ↦
          let (l, fit) = find-remove_peer peers fingerprint p (ground arith) rest in
          rw (n) ((omega (arith, l), fit))
    ]

expire_kept :
    (peers : Peers) (now : ℕ)
    → All (λ (entry : Bytes × Partial). IsFit entry.1) peers
    → (length (expire peers now) ≤ length peers)
      × All (λ (entry : Bytes × Partial). IsFit entry.1) (expire peers now)
unfolding expire
expire_kept [] now a = (omega arith, tt)
expire_kept ((f, p) ∷ peers) now (a, rest) =
    let (l, r) = expire_kept peers now rest in
    elim (Bool-cases (ltb (now - p.touched) 5_000)) [
      | inl t ↦ rw (t) ((omega (arith, l), (a, r)))
      | inr n ↦ rw (n) ((omega (arith, l), r))
    ]

pub expire-IsValid : (peers : Peers) (now : ℕ) → IsValid peers → IsValid (expire peers now)
expire-IsValid peers now v =
    let (l, a) = expire_kept peers now v.fit in record { few = omega (arith, l, v.few); fit = a }

pub remove-IsValid :
    (peers : Peers) (fingerprint : Bytes) → IsValid peers → IsValid (remove_peer peers fingerprint)
remove-IsValid peers fingerprint v =
    let (l, a) = remove_peer-IsValid peers fingerprint v.fit in
    record { few = omega (arith, l, v.few); fit = a }

pub put-IsValid :
    (peers : Peers) (fingerprint : Bytes) (p : Partial)
    → IsFit p
    → length (remove_peer peers fingerprint) < max_partials
    → IsValid peers
    → IsValid (put peers fingerprint p)
unfolding put
put-IsValid peers fingerprint p fit room v =
    let (l, a) = remove_peer-IsValid peers fingerprint v.fit in
    record { few = omega (arith, room); fit = (fit, a) }

-- A call that keeps the table valid and answers a whole avatar, if any.
unfoldable pub Sound : Peers × Reply → Type 0
Sound (peers, reply) = IsValid peers × IsWhole reply

pub finish-Sound :
    (peers : Peers) (fingerprint : Bytes) (p : Partial)
    → IsFit p
    → length (remove_peer peers fingerprint) < max_partials
    → IsValid peers
    → Sound (finish peers fingerprint p (gather p.chunks))
unfolding finish Sound IsWhole IsWholeAvatar
finish-Sound peers fingerprint p fit room v = go (gather p.chunks) refl
  where
    go : (o : Option Bytes) → gather p.chunks ≡ o → Sound (finish peers fingerprint p o)
    go none g = (put-IsValid peers fingerprint p fit room v, tt)
    go (some rgba) g =
        let l = length-gather p.chunks (p.width * p.height * 4) 0 rgba fit.fits g in
        (
          remove-IsValid peers fingerprint v,
          (fit.width_le, fit.height_le, omega (arith, l, fit.slots)),
        )
