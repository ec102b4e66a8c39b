-- ===== src/Clipboard/Echo.antt =====
-- What `ClipboardState` of crates/syntra-core/src/clipboard.rs reports of contents that come again.
use syntra.Prelude.{
  ℕ, zero, suc, ◌≡◌, refl, ap, true, false, Option, some, List, [], ◌∷◌, arith, bytes_eq_refl,
  bytes_eq_sound, Bool-cases, inl, inr, if◌then◌else◌,
}
use syntra.Clipboard.State.{
  ClipboardContent, text, image, content_eq, is_content, Observation, local, remote, unchanged,
  ClipboardState, QueuedRemote, observe, queue_remote, is_stale, commit_remote,
}

pub content_eq_refl : (c : ClipboardContent) → content_eq c c ≡ true
unfolding content_eq
content_eq_refl (text a) = bytes_eq_refl a
content_eq_refl (image w h a) = ground (arith, bytes_eq_refl a)

content_eq_sound : (c d : ClipboardContent) → content_eq c d ≡ true → c ≡ d
unfolding content_eq
content_eq_sound (text a) (text b) h = ap text (bytes_eq_sound a b h)
content_eq_sound (text a) (image x y b) h = cc
content_eq_sound (image w h' a) (text b) h = cc
content_eq_sound (image w h' a) (image x y b) h = ground (arith, bytes_eq_sound a b)

-- The reports of reading the same content so many times.
unfoldable pub reports : ClipboardState → ClipboardContent → ℕ → List Observation
reports s content zero = []
reports s content (suc n) = (observe s content).1 ∷ reports (observe s content).0 content n

unfoldable pub repeat : Observation → ℕ → List Observation
repeat o zero = []
repeat o (suc n) = o ∷ repeat o n

reports_known :
    (s : ClipboardState) (c : ClipboardContent) (n : ℕ)
    → is_content s.last c ≡ true
    → reports s c n ≡ repeat (if s.remote_origin then remote else unchanged) n
unfolding reports repeat observe
reports_known s c zero h = refl
reports_known s c (suc n) h =
    rw (h) (ap (λ os. (if s.remote_origin then remote else unchanged) ∷ os) (reports_known s c n h))

-- What a peer sent is never taken for something the user copied here: after a remote write that is
-- committed, however often the clipboard is read with that content, each read reports it as the
-- peer's.
pub commit_remote_echo :
    (s : ClipboardState) (queued : QueuedRemote) (current : Option ClipboardContent) (n : ℕ)
    → (commit_remote s queued current).1 ≡ true
    → reports (commit_remote s queued current).0 queued.content n ≡ repeat remote n
unfolding commit_remote is_content
commit_remote_echo s queued current n h = elim (Bool-cases (is_stale queued.baseline current)) [
  | inl t ↦ absurd (clash (rw t at h))
  | inr f ↦ rw (f) (reports_known _ queued.content n (content_eq_refl queued.content))
]
  where
    clash : false ≡ true → ⊥
    clash k = cc

-- What the user copied is shared once: the first read of a content that is not the last one reports
-- it as copied here, and all reads of it that follow report it as unchanged.
pub observe_once :
    (s : ClipboardState) (c : ClipboardContent) (n : ℕ)
    → is_content s.last c ≡ false
    → reports s c (suc n) ≡ local ∷ repeat unchanged n
unfolding reports observe is_content
observe_once s c n h = rw (h) (
    ap (λ os. local ∷ os)
      (reports_known (record { last = some c; remote_origin = false }) c n (content_eq_refl c)))

-- Where the content of the clipboard was known when a remote write was queued, a newer copy of the user's is
-- not lost to it: the write is dropped and changes nothing, and the next read of the copy reports it as copied
-- here.
pub newer_copy :
    (s : ClipboardState) (known copy content : ClipboardContent)
    → s.last ≡ some known
    → content_eq known copy ≡ false
    → (commit_remote s (queue_remote s content) (some copy) ≡ (s, false))
      × ((observe s copy).1 ≡ local)
unfolding commit_remote queue_remote is_stale observe is_content
newer_copy s known copy content h d = (rw (h, content_eq_sym copy known d) refl, rw (h, d) refl)
  where
    content_eq_sym : (a b : ClipboardContent) → content_eq b a ≡ false → content_eq a b ≡ false
    content_eq_sym a b k = elim (Bool-cases (content_eq a b)) [
      | inl t ↦ ground (arith, content_eq_sound a b t, content_eq_refl b)
      | inr f ↦ f
    ]
