-- ===== src/Clipboard/Examples.antt =====
-- `ClipboardState` of crates/syntra-core/src/clipboard.rs on concrete contents.
use syntra.Prelude.{suc, ◌≡◌, refl, false, some, ◌∷◌, codes}
use syntra.Clipboard.State.{content_eq, is_content, is_stale}
use syntra.Clipboard.State.{
  ClipboardContent, text, ClipboardState, observe, queue_remote, commit_remote, local, remote,
  unchanged,
}
use syntra.Clipboard.Echo.{reports, repeat, commit_remote_echo, observe_once, newer_copy}

abbrev ours : ClipboardContent
ours = text (codes "ours")

abbrev theirs : ClipboardContent
theirs = text (codes "theirs")

abbrev copied : ClipboardState
copied = record { last = some ours; remote_origin = false }

commit_remote_echo_example :
    reports (commit_remote copied (queue_remote copied theirs) (some ours)).0 theirs 3
    ≡ repeat remote 3
unfolding queue_remote commit_remote is_stale
commit_remote_echo_example =
    commit_remote_echo copied (queue_remote copied theirs) (some ours) 3 refl

observe_once_example : reports copied theirs (suc 2) ≡ local ∷ repeat unchanged 2
unfolding is_content
observe_once_example = observe_once copied theirs 2 refl

newer_copy_example :
    (commit_remote copied (queue_remote copied theirs) (some (text (codes "newer")))
      ≡ (copied, false))
    × ((observe copied (text (codes "newer"))).1 ≡ local)
unfolding content_eq
newer_copy_example = newer_copy copied ours (text (codes "newer")) theirs refl refl
