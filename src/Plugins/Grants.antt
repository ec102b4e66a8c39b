-- ===== src/Plugins/Grants.antt =====
-- crates/syntra-plugin-api/src/manifest.rs: what `intersect` grants.
use syntra.Prelude.{
  false, ◌≡◌, ◌↔◌, inl, inr, refl, sym, subst, ◌∙◌, Bool, true, ◌&&◌, List, [], ◌∷◌, bytes_eq,
  bytes_eq_sound, bytes_eq_refl, Bool-cases, arith,
}
use syntra.Proto.Error.{Bytes}
use syntra.Plugins.Capabilities.{
  PluginRole, file_clipboard, mounted_file_receive, pointer, Capabilities, fills, lists, filter,
  intersect, uri_list_mime, gnome_copied_files_mime,
}

-- Each flag and each MIME type of the first one is one of the second.
pub record Within (c d : Capabilities) : Type 0 where
  pub clipboard_read : c.clipboard_read ≡ true → d.clipboard_read ≡ true
  pub paste : c.paste ≡ true → d.paste ≡ true
  pub cancel : c.cancel ≡ true → d.cancel ≡ true
  pub requires_live_mount : c.requires_live_mount ≡ true → d.requires_live_mount ≡ true
  pub pointer_events : c.pointer_events ≡ true → d.pointer_events ≡ true
  pub mime_types : (mime : Bytes) → lists c.mime_types mime ≡ true → lists d.mime_types mime ≡ true

both : {a b : Bool} → a && b ≡ true → (a ≡ true) × (b ≡ true)
both h = (ground arith, ground arith)

lists-filter :
    (approved mimes : List Bytes) (mime : Bytes)
    → lists (filter (λ m. lists approved m) mimes) mime ≡ lists mimes mime && lists approved mime
unfolding lists filter
lists-filter approved [] mime = refl
lists-filter approved (m ∷ mimes) mime =
    let rest = lists-filter approved mimes mime in
    elim (Bool-cases (bytes_eq m mime)) [
      | inl t ↦
          let same : m ≡ mime = bytes_eq_sound m mime t in
          subst
            (λ x.
              lists (filter (λ m. lists approved m) (x ∷ mimes)) mime
              ≡ lists (x ∷ mimes) mime && lists approved mime)
            (sym same)
            (let whole = bytes_eq_refl mime in
              elim (Bool-cases (lists approved mime)) [
                | inl a ↦ ground (arith, rest, whole, a)
                | inr b ↦ ground (arith, rest, b)
              ])
      | inr f ↦ elim (Bool-cases (lists approved m)) [
        | inl t ↦ ground (arith, rest)
        | inr n ↦ ground (arith, rest)
      ]
    ]

-- What is granted is exactly what both have: of all capabilities, those within the granted ones are those
-- that are within the reported and within the approved ones.
pub intersect_iff :
    (x c approved : Capabilities)
    → Within x (intersect c approved) ↔ (Within x c × Within x approved)
unfolding intersect
intersect_iff x c approved = (
  λ w. (
    record {
      clipboard_read = λ h. (both (w.clipboard_read h)).0;
      paste = λ h. (both (w.paste h)).0;
      cancel = λ h. (both (w.cancel h)).0;
      requires_live_mount = λ h. (both (w.requires_live_mount h)).0;
      pointer_events = λ h. (both (w.pointer_events h)).0;
      mime_types = λ m h. (listed m (w.mime_types m h)).0;
    },
    record {
      clipboard_read = λ h. (both (w.clipboard_read h)).1;
      paste = λ h. (both (w.paste h)).1;
      cancel = λ h. (both (w.cancel h)).1;
      requires_live_mount = λ h. (both (w.requires_live_mount h)).1;
      pointer_events = λ h. (both (w.pointer_events h)).1;
      mime_types = λ m h. (listed m (w.mime_types m h)).1;
    },
  ),
  λ (v, w). record {
    clipboard_read = λ h. rw (v.clipboard_read h, w.clipboard_read h) refl;
    paste = λ h. rw (v.paste h, w.paste h) refl;
    cancel = λ h. rw (v.cancel h, w.cancel h) refl;
    requires_live_mount = λ h. rw (v.requires_live_mount h, w.requires_live_mount h) refl;
    pointer_events = λ h. rw (v.pointer_events h, w.pointer_events h) refl;
    mime_types = λ m h.
        lists-filter approved.mime_types c.mime_types m
        ∙ rw (v.mime_types m h, w.mime_types m h) refl;
  },
)
  where
    listed :
        (m : Bytes)
        → lists (filter (λ mime. lists approved.mime_types mime) c.mime_types) m ≡ true
        → (lists c.mime_types m ≡ true) × (lists approved.mime_types m ≡ true)
    listed m h = both (sym (lists-filter approved.mime_types c.mime_types m) ∙ h)

-- What a role needs of a plugin.
unfoldable pub Needs : Capabilities → PluginRole → Type 0
Needs c file_clipboard =
    (c.clipboard_read ≡ true)
    × (c.paste ≡ true)
    × (c.cancel ≡ true)
    × (lists c.mime_types uri_list_mime ≡ true)
    × (lists c.mime_types gnome_copied_files_mime ≡ true)
Needs c mounted_file_receive =
    (c.paste ≡ true)
    × (c.cancel ≡ true)
    × (c.requires_live_mount ≡ true)
    × (lists c.mime_types uri_list_mime ≡ true)
Needs c pointer = c.pointer_events ≡ true

-- Receiving into a mount is for plugins that do not read the clipboard as well.
unfoldable pub Excludes : Bool → PluginRole → Type 0
Excludes reads file_clipboard = Unit
Excludes reads mounted_file_receive = reads ≡ false
Excludes reads pointer = Unit

-- The granted capabilities fill a role exactly if both the reported and the approved ones have all that the
-- role needs and, where the role is to receive into a mount, not both read the clipboard.
pub intersect-fills :
    (c approved : Capabilities) (role : PluginRole)
    → (fills (intersect c approved) role ≡ true) ↔ (
        Needs c role
        × Needs approved role
        × Excludes (c.clipboard_read && approved.clipboard_read) role)
unfolding intersect fills Needs Excludes
intersect-fills c approved file_clipboard =
    let u = lists-filter approved.mime_types c.mime_types uri_list_mime in
    let g = lists-filter approved.mime_types c.mime_types gnome_copied_files_mime in
    (λ h. ground (arith, u, g), λ h. ground (arith, u, g))
intersect-fills c approved mounted_file_receive =
    let u = lists-filter approved.mime_types c.mime_types uri_list_mime in
    (λ h. ground (arith, u), λ h. ground (arith, u))
intersect-fills c approved pointer = (λ h. ground arith, λ h. ground arith)
