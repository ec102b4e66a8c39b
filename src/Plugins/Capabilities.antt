-- ===== src/Plugins/Capabilities.antt =====
-- crates/syntra-plugin-api/src/manifest.rs and lib.rs: capabilities, and the roles that they fill.
use syntra.Prelude.{Bool, not, ◌&&◌, List, [], ◌∷◌, any, bytes_eq, codes, if◌then◌else◌}
use syntra.Proto.Error.{Bytes}

pub data PluginRole : Type 0 where
  file_clipboard mounted_file_receive pointer : PluginRole

pub record Capabilities : Type 0 where
  pub clipboard_read : Bool
  pub paste : Bool
  pub cancel : Bool
  pub requires_live_mount : Bool
  pub pointer_events : Bool
  pub mime_types : List Bytes

abbrev pub uri_list_mime : Bytes
uri_list_mime = codes "text/uri-list"

abbrev pub gnome_copied_files_mime : Bytes
gnome_copied_files_mime = codes "x-special/gnome-copied-files"

abbrev all_roles : List PluginRole
all_roles = file_clipboard ∷ mounted_file_receive ∷ pointer ∷ []

unfoldable pub lists : List Bytes → Bytes → Bool
lists mime_types wanted = any (λ mime. bytes_eq mime wanted) mime_types

unfoldable pub fills : Capabilities → PluginRole → Bool
fills c file_clipboard =
    c.clipboard_read
    && (c.paste
        && (c.cancel
            && (lists c.mime_types uri_list_mime && lists c.mime_types gnome_copied_files_mime)))
fills c mounted_file_receive =
    not c.clipboard_read
    && (c.paste && (c.cancel && (c.requires_live_mount && lists c.mime_types uri_list_mime)))
fills c pointer = c.pointer_events

unfoldable pub filter {ℓ} : {A : Type ℓ} → (A → Bool) → List A → List A
filter keep [] = []
filter keep (x ∷ xs) = let rest = filter keep xs in if keep x then x ∷ rest else rest

unfoldable pub roles : Capabilities → List PluginRole
roles c = filter (fills c) all_roles

-- The second ones are those approved.
unfoldable pub intersect : Capabilities → Capabilities → Capabilities
intersect c approved = record {
  clipboard_read = c.clipboard_read && approved.clipboard_read;
  paste = c.paste && approved.paste;
  cancel = c.cancel && approved.cancel;
  requires_live_mount = c.requires_live_mount && approved.requires_live_mount;
  pointer_events = c.pointer_events && approved.pointer_events;
  mime_types = filter (λ mime. lists approved.mime_types mime) c.mime_types;
}
