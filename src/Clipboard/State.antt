-- ===== src/Clipboard/State.antt =====
-- crates/syntra-core/src/clipboard.rs: `ClipboardState`, which tells what the user copied here from what
-- a peer sent. The workers that read and write the desktop's clipboard lock it for each call.
use syntra.Prelude.{
  ℕ, Bool, true, false, not, ◌&&◌, Option, none, some, ◌==◌, if◌then◌else◌, bytes_eq,
}
use syntra.Proto.Error.{Bytes}

pub data ClipboardContent : Type 0 where
  text : Bytes → ClipboardContent
  image : (width height : ℕ) (rgba : Bytes) → ClipboardContent

-- `==` of contents, and of optional ones.
unfoldable pub content_eq : ClipboardContent → ClipboardContent → Bool
unfolding bytes_eq
content_eq (text a) (text b) = bytes_eq a b
content_eq (image w h a) (image x y b) = w == x && (h == y && bytes_eq a b)
content_eq _ _ = false

unfoldable pub is_content : Option ClipboardContent → ClipboardContent → Bool
unfolding content_eq
is_content none content = false
is_content (some known) content = content_eq known content

pub data Observation : Type 0 where
  local remote unchanged : Observation

pub record ClipboardState : Type 0 where
  pub last : Option ClipboardContent
  pub remote_origin : Bool

pub record QueuedRemote : Type 0 where
  pub baseline : Option ClipboardContent
  pub content : ClipboardContent

unfoldable pub observe : ClipboardState → ClipboardContent → ClipboardState × Observation
observe s content =
    if is_content s.last content
    then (s, (if s.remote_origin then remote else unchanged))
    else (record { last = some content; remote_origin = false }, local)

unfoldable pub queue_remote : ClipboardState → ClipboardContent → QueuedRemote
queue_remote s content = record { baseline = s.last; content = content }

-- The baseline is there and is not what the clipboard holds now.
unfoldable pub is_stale : Option ClipboardContent → Option ClipboardContent → Bool
unfolding is_content
is_stale none current = false
is_stale (some baseline) current = not (is_content current baseline)

unfoldable pub commit_remote :
    ClipboardState → QueuedRemote → Option ClipboardContent → ClipboardState × Bool
commit_remote s queued current =
    if is_stale queued.baseline current
    then (s, false)
    else (record { last = some queued.content; remote_origin = true }, true)
