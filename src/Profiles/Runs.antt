-- ===== src/Profiles/Runs.antt =====
-- crates/syntra-core/src/peer_profile.rs: all calls on the reassembler, in any order.
use syntra.Prelude.{
  ℕ, ◌+◌, ◌-◌, ◌*◌, ◌/◌, ◌^◌, ◌≤◌, ◌<◌, ◌≡◌, refl, ◌∙◌, not, ◌&&◌, ◌||◌, Option, none, some, List,
  [], ◌∷◌, ltb, leb, ◌==◌, length, get_elem?, min, All, Bool-cases, inl, inr, bytes_eq, arith,
}
use syntra.Proto.Error.{Bytes}
use syntra.Proto.Limits.{max_profile_chunk_size}
use syntra.HistorySync.Reassembler.{set_slot}
use syntra.HistorySync.Slots.{length-set_slot}
use syntra.Profiles.Reassembler.{
  Partial, ProfileHeader, Reply, answered, Peers, max_partials, find, remove_peer, expire,
  start_partial, start_avatar, start_now, start, fill, chunk_of, chunk,
}
use syntra.Profiles.Slots.{Fits-empty_slots, length-empty_slots, Fits-set_slot}
use syntra.Profiles.Avatars.{
  IsFit, IsWhole, IsWholeAvatar, IsValid, Sound, remove_peer-IsValid, remove-IsValid,
  find-remove_peer, expire-IsValid, put-IsValid, finish-Sound,
}

fill-Sound :
    (peers : Peers) (fingerprint : Bytes) (p : Partial) (index : ℕ) (bytes : Bytes)
    (slot : Option (Option Bytes))
    → IsFit p
    → length (remove_peer peers fingerprint) < max_partials
    → length bytes
      ≡ min max_profile_chunk_size (p.width * p.height * 4 - index * max_profile_chunk_size)
    → IsValid peers
    → Sound (fill peers fingerprint p index bytes slot)
unfolding fill Sound IsWhole
fill-Sound peers fingerprint p index bytes none fit room l v = (v, tt)
fill-Sound peers fingerprint p index bytes (some (some old)) fit room l v =
    elim (Bool-cases (bytes_eq old bytes)) [ inl t ↦ rw (t) ((v, tt)) | inr n ↦ rw (n) ((v, tt)) ]
fill-Sound peers fingerprint p index bytes (some none) fit room l v =
    let filled : IsFit (record p { chunks = set_slot p.chunks index bytes }) = record {
      width_le = fit.width_le;
      height_le = fit.height_le;
      slots = length-set_slot p.chunks index bytes ∙ fit.slots;
      fits =
          Fits-set_slot p.chunks (p.width * p.height * 4) 0 index bytes fit.fits (omega (arith, l));
    } in
    finish-Sound peers fingerprint (record p { chunks = set_slot p.chunks index bytes }) filled room
      v

chunk_of-Sound :
    (peers : Peers) (fingerprint : Bytes) (request_id index : ℕ) (bytes : Bytes)
    (o : Option Partial)
    → find peers fingerprint ≡ o
    → IsValid peers
    → Sound (chunk_of peers fingerprint request_id index bytes o)
unfolding chunk_of Sound IsWhole
chunk_of-Sound peers fingerprint request_id index bytes none q v = (v, tt)
chunk_of-Sound peers fingerprint request_id index bytes (some p) q v =
    let (l, fit) = find-remove_peer peers fingerprint p q v.fit in
    let total = p.width * p.height * 4 in
    let offset = index * max_profile_chunk_size in
    elim (Bool-cases (not (p.request_id == request_id))) [
      | inl t ↦ rw (t) ((v, tt))
      | inr a ↦ elim (Bool-cases (not (ltb offset (2 ^ 64)))) [
        | inl t ↦ rw (a, t) ((v, tt))
        | inr b ↦
            elim (Bool-cases (
              leb total offset
              || not (length bytes == min max_profile_chunk_size (total - offset)))) [
                | inl t ↦ rw (a, b, t) ((v, tt))
                | inr c ↦
                    rw (a, b, c)
                      (fill-Sound peers fingerprint p index bytes (get_elem? p.chunks index) fit
                        (omega (arith, l, v.few)) (ground arith) v)
              ]
      ]
    ]

chunk-Sound :
    (peers : Peers) (fingerprint : Bytes) (request_id index : ℕ) (bytes : Bytes) (now : ℕ)
    → IsValid peers
    → Sound (chunk peers fingerprint request_id index bytes now)
unfolding chunk
chunk-Sound peers fingerprint request_id index bytes now v =
    chunk_of-Sound (expire peers now) fingerprint request_id index bytes
      (find (expire peers now) fingerprint) refl (expire-IsValid peers now v)

start_partial-Sound :
    (peers : Peers) (fingerprint : Bytes) (request_id : ℕ) (h : ProfileHeader) (now : ℕ)
    → h.width ≤ 128
    → h.height ≤ 128
    → h.chunks ≡ (h.width * h.height * 4 + 1186) / max_profile_chunk_size
    → length (remove_peer peers fingerprint) < max_partials
    → IsValid peers
    → Sound (start_partial peers fingerprint request_id h now)
unfolding start_partial Sound IsWhole
start_partial-Sound peers fingerprint request_id h now w t n room v = (
  put-IsValid peers fingerprint _
      (record {
        width_le = w;
        height_le = t;
        slots = length-empty_slots h.chunks ∙ n;
        fits = Fits-empty_slots h.chunks (h.width * h.height * 4) 0;
      })
      room v,
  tt,
)

start_avatar-Sound :
    (peers : Peers) (fingerprint : Bytes) (request_id : ℕ) (h : ProfileHeader) (now : ℕ)
    (o : Option Partial)
    → find peers fingerprint ≡ o
    → h.width ≤ 128
    → h.height ≤ 128
    → h.chunks ≡ (h.width * h.height * 4 + 1186) / max_profile_chunk_size
    → IsValid peers
    → Sound (start_avatar peers fingerprint request_id h now o)
unfolding start_avatar Sound IsWhole
start_avatar-Sound peers fingerprint request_id h now none q w t n v =
    let few = (remove_peer-IsValid peers fingerprint v.fit).0 in
    elim (Bool-cases (leb max_partials (length peers))) [
      | inl y ↦ rw (y) ((v, tt))
      | inr x ↦
          let room : length peers < max_partials = ground arith in
          rw (x) (
            start_partial-Sound peers fingerprint request_id h now w t n (omega (arith, few, room))
              v)
    ]
start_avatar-Sound peers fingerprint request_id h now (some old) q w t n v =
    let few = (find-remove_peer peers fingerprint old q v.fit).0 in
    elim (Bool-cases (old.request_id == request_id)) [
      | inl y ↦
          elim (Bool-cases (
            old.width == h.width && (old.height == h.height && bytes_eq old.name h.display_name))) [
              | inl z ↦ rw (y, z) ((v, tt))
              | inr z ↦ rw (y, z) ((v, tt))
            ]
      | inr x ↦ rw (x) (
          start_partial-Sound peers fingerprint request_id h now w t n (omega (arith, few, v.few))
            v)
    ]

start_now-Sound :
    (peers : Peers) (fingerprint : Bytes) (request_id : ℕ) (h : ProfileHeader) (now : ℕ)
    → IsValid peers
    → Sound (start_now peers fingerprint request_id h now)
unfolding start_now Sound IsWhole IsWholeAvatar
start_now-Sound peers fingerprint request_id h now v =
    elim (Bool-cases (
      request_id == 0
      || (ltb 128 (length h.display_name) || (ltb 128 h.width || ltb 128 h.height)))) [
        | inl t ↦ rw (t) ((v, tt))
        | inr a ↦ elim (Bool-cases (h.total_len == 0)) [
          | inl e ↦
              elim (Bool-cases
                (not (h.width == 0) || (not (h.height == 0) || not (h.chunks == 0)))) [
                  | inl t ↦ rw (a, e, t) ((v, tt))
                  | inr f ↦ rw (a, e, f) ((remove-IsValid peers fingerprint v, tt))
                ]
          | inr e ↦
              elim (Bool-cases (
                h.width == 0
                || (h.height == 0
                    || (not (h.width * h.height * 4 == h.total_len)
                        || not (
                            h.chunks
                            == (h.total_len + max_profile_chunk_size - 1)
                              / max_profile_chunk_size))))) [
                                | inl t ↦ rw (a, e, t) ((v, tt))
                                | inr f ↦
                                    rw (a, e, f)
                                      (start_avatar-Sound peers fingerprint request_id h now
                                        (find peers fingerprint) refl (ground (arith, a))
                                        (ground (arith, a)) (ground (arith, f)) v)
                              ]
        ]
      ]

pub data Call : Type 0 where
  start_call : (fingerprint : Bytes) (request_id : ℕ) (header : ProfileHeader) (now : ℕ) → Call
  chunk_call : (fingerprint : Bytes) (request_id index : ℕ) (bytes : Bytes) (now : ℕ) → Call
  expire_call : (now : ℕ) → Call
  remove_call : (fingerprint : Bytes) → Call

unfoldable pub step : Call → Peers → Peers × Reply
step (start_call f i h now) peers = start peers f i h now
step (chunk_call f i index bytes now) peers = chunk peers f i index bytes now
step (expire_call now) peers = (expire peers now, answered none)
step (remove_call f) peers = (remove_peer peers f, answered none)

-- The table after all calls, and their answers.
unfoldable pub run : List Call → Peers → Peers × List Reply
run [] peers = (peers, [])
run (call ∷ calls) peers =
    let (next, reply) = step call peers in
    let (last, replies) = run calls next in (last, reply ∷ replies)

step-Sound : (call : Call) (peers : Peers) → IsValid peers → Sound (step call peers)
unfolding step start Sound IsWhole
step-Sound (start_call f i h now) peers v =
    start_now-Sound (expire peers now) f i h now (expire-IsValid peers now v)
step-Sound (chunk_call f i index bytes now) peers v = chunk-Sound peers f i index bytes now v
step-Sound (expire_call now) peers v = (expire-IsValid peers now v, tt)
step-Sound (remove_call f) peers v = (remove-IsValid peers f v, tt)

-- From a table within these bounds, whatever profiles and pieces of them peers send, in any order, at most 8
-- incomplete avatars are kept, each of at most 128 by 128 pixels with a slot for each chunk and chunks of the
-- right size; and every avatar that is answered has at most 128 by 128 pixels and exactly four bytes for each.
pub run-IsWhole :
    (calls : List Call) (peers : Peers)
    → IsValid peers
    → IsValid (run calls peers).0 × All IsWhole (run calls peers).1
unfolding run Sound
run-IsWhole [] peers v = (v, tt)
run-IsWhole (call ∷ calls) peers v =
    let (next, whole) = step-Sound call peers v in
    let (last, all) = run-IsWhole calls (step call peers).0 next in (last, (whole, all))
