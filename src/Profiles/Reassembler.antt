-- ===== src/Profiles/Reassembler.antt =====
-- crates/syntra-core/src/peer_profile.rs: `Reassembler`.
use syntra.Prelude.{
  ℕ, ◌+◌, ◌-◌, ◌*◌, ◌/◌, ◌^◌, not, ◌&&◌, ◌||◌, Option, none, some, List, [], ◌∷◌, ltb, leb, ◌==◌,
  if◌then◌else◌, length, get_elem?, bytes_eq, codes, min,
}
use syntra.Proto.Error.{Bytes}
use syntra.Proto.Limits.{max_profile_chunk_size}
use syntra.HistorySync.Reassembler.{empty_slots, set_slot, gather}

pub record PeerAvatar : Type 0 where
  pub width : ℕ
  pub height : ℕ
  pub rgba : Bytes

pub record DeviceProfile : Type 0 where
  pub display_name : Bytes
  pub avatar : Option PeerAvatar

pub record Partial : Type 0 where
  pub request_id : ℕ
  pub width : ℕ
  pub height : ℕ
  pub chunks : List (Option Bytes)
  pub name : Bytes
  pub touched : ℕ

pub record ProfileHeader : Type 0 where
  pub width : ℕ
  pub height : ℕ
  pub total_len : ℕ
  pub chunks : ℕ
  pub display_name : Bytes

-- `Result<Option<DeviceProfile>, String>`
pub data Reply : Type 0 where
  refused : Bytes → Reply
  answered : Option DeviceProfile → Reply

-- The map is a list of entries of distinct fingerprints.
abbrev pub Peers : Type 0
Peers = List (Bytes × Partial)

abbrev pub max_partials : ℕ
max_partials = 8

-- In milliseconds.
abbrev ttl : ℕ
ttl = 5_000

unfoldable pub find : Peers → Bytes → Option Partial
find [] fingerprint = none
find ((f, p) ∷ peers) fingerprint =
    if bytes_eq f fingerprint then some p else find peers fingerprint

unfoldable pub remove_peer : Peers → Bytes → Peers
remove_peer [] fingerprint = []
remove_peer ((f, p) ∷ peers) fingerprint =
    let rest = remove_peer peers fingerprint in
    if bytes_eq f fingerprint then peers else (f, p) ∷ rest

unfoldable pub expire : Peers → ℕ → Peers
expire [] now = []
expire ((f, p) ∷ peers) now =
    let rest = expire peers now in if ltb (now - p.touched) ttl then (f, p) ∷ rest else rest

-- The entry takes the place of another one of the peer.
unfoldable pub put : Peers → Bytes → Partial → Peers
put peers fingerprint p = (fingerprint, p) ∷ remove_peer peers fingerprint

unfoldable pub start_partial : Peers → Bytes → ℕ → ProfileHeader → ℕ → Peers × Reply
start_partial peers fingerprint request_id h now = (
  put peers fingerprint (record {
    request_id = request_id;
    width = h.width;
    height = h.height;
    chunks = empty_slots h.chunks;
    name = h.display_name;
    touched = now;
  }),
  answered none,
)

-- A profile with an avatar, which may be announced again.
unfoldable pub start_avatar : Peers → Bytes → ℕ → ProfileHeader → ℕ → Option Partial → Peers × Reply
start_avatar peers fingerprint request_id h now none =
    if leb max_partials (length peers)
    then (peers, refused (codes "too many partial profiles"))
    else start_partial peers fingerprint request_id h now
start_avatar peers fingerprint request_id h now (some old) =
    if old.request_id == request_id
    then if old.width == h.width && (old.height == h.height && bytes_eq old.name h.display_name)
      then (peers, answered none)
      else (peers, refused (codes "conflicting profile start"))
    else start_partial peers fingerprint request_id h now

-- After the old entries have gone.
unfoldable pub start_now : Peers → Bytes → ℕ → ProfileHeader → ℕ → Peers × Reply
start_now peers fingerprint request_id h now =
    if request_id == 0 || (ltb 128 (length h.display_name) || (ltb 128 h.width || ltb 128 h.height))
    then (peers, refused (codes "invalid profile metadata"))
    else if h.total_len == 0
    then if not (h.width == 0) || (not (h.height == 0) || not (h.chunks == 0))
      then (peers, refused (codes "invalid empty avatar"))
      else (
        remove_peer peers fingerprint,
        answered (some (record { display_name = h.display_name; avatar = none })),
      )
    else if h.width == 0
        || (h.height == 0
            || (not (h.width * h.height * 4 == h.total_len)
                || not (
                    h.chunks
                    == (h.total_len + max_profile_chunk_size - 1) / max_profile_chunk_size)))
    then (peers, refused (codes "invalid avatar dimensions or chunk count"))
    else start_avatar peers fingerprint request_id h now (find peers fingerprint)

unfoldable pub start : Peers → Bytes → ℕ → ProfileHeader → ℕ → Peers × Reply
start peers fingerprint request_id h now = start_now (expire peers now) fingerprint request_id h now

-- The profile of a partial whose slots are all filled.
unfoldable pub finish : Peers → Bytes → Partial → Option Bytes → Peers × Reply
finish peers fingerprint p none = (put peers fingerprint p, answered none)
finish peers fingerprint p (some rgba) = (
  remove_peer peers fingerprint,
  answered (
      some (record {
        display_name = p.name;
        avatar = some (record { width = p.width; height = p.height; rgba = rgba });
      })),
)

-- A chunk of the right size, for the slot at its index.
unfoldable pub fill : Peers → Bytes → Partial → ℕ → Bytes → Option (Option Bytes) → Peers × Reply
fill peers fingerprint p index bytes none = (peers, refused (codes "invalid profile chunk index"))
fill peers fingerprint p index bytes (some (some existing)) =
    if bytes_eq existing bytes
    then (peers, answered none)
    else (peers, refused (codes "conflicting profile chunk"))
fill peers fingerprint p index bytes (some none) =
    finish peers fingerprint (record p { chunks = set_slot p.chunks index bytes })
      (gather (set_slot p.chunks index bytes))

unfoldable pub chunk_of : Peers → Bytes → ℕ → ℕ → Bytes → Option Partial → Peers × Reply
chunk_of peers fingerprint request_id index bytes none =
    (peers, refused (codes "unknown profile transfer"))
chunk_of peers fingerprint request_id index bytes (some p) =
    let total = p.width * p.height * 4 in
    let offset = index * max_profile_chunk_size in
    if not (p.request_id == request_id)
    then (peers, refused (codes "profile generation mismatch"))
    else if not (ltb offset (2 ^ 64))
    then (peers, refused (codes "invalid profile index"))
    else if leb total offset || not (length bytes == min max_profile_chunk_size (total - offset))
    then (peers, refused (codes "invalid profile chunk size"))
    else fill peers fingerprint p index bytes (get_elem? p.chunks index)

unfoldable pub chunk : Peers → Bytes → ℕ → ℕ → Bytes → ℕ → Peers × Reply
chunk peers fingerprint request_id index bytes now =
    let kept = expire peers now in
    chunk_of kept fingerprint request_id index bytes (find kept fingerprint)
