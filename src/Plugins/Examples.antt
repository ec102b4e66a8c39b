-- ===== src/Plugins/Examples.antt =====
-- Manifests of crates/syntra-plugin-api/src/manifest.rs.
use syntra.Prelude.{
  ◌&&◌, ℕ, ◌≡◌, ◌⊎◌, ◌↔◌, refl, Bool, true, false, Option, none, some, List, [], ◌∷◌, is_empty,
  bytes_eq, codes,
}
use syntra.Proto.Error.{Bytes}
use syntra.Plugins.Capabilities.{
  Capabilities, mounted_file_receive, fills, intersect, lists, uri_list_mime,
}
use syntra.Plugins.Grants.{Within, intersect_iff, intersect-fills, Needs, Excludes}
use syntra.Plugins.Settings.{
  Text, SettingDecl, SettingControlKind, accepts, effective, control_kind, kind_of,
  validate_setting, require, every, key_ok, option_ok, validate_kind, accepts_as,
}
use syntra.Plugins.Choices.{effective-accepted}
use syntra.Plugins.Manifest.{
  Paths, Component, normal, PluginManifest, validate, validate_settings, validate_capabilities,
  setting_then, is_safe_id, is_contained_relative, fields_ok, arg_ok, mime_ok, unique_from,
  does_something,
}
use syntra.Plugins.Sound.{Sound, validate-Sound}

abbrev no_number : Bytes → Option ℕ
no_number value = none

abbrev text : Text
text = record { is_blank = is_empty; number = no_number }

abbrev one_component : Bytes → List Component
one_component path = normal path ∷ []

abbrev is_relative : Bytes → Bool
is_relative path = true

abbrev paths : Paths
paths = record { text = text; is_relative = is_relative; components = one_component }

-- Reports a mount and the clipboard, of which the mount is approved.
abbrev reported : Capabilities
reported = record {
  clipboard_read = true;
  paste = true;
  cancel = true;
  requires_live_mount = true;
  pointer_events = false;
  mime_types = uri_list_mime ∷ [];
}

abbrev approved : Capabilities
approved = record reported { clipboard_read = false }

intersect_iff_example :
    Within approved (intersect reported approved)
    ↔ (Within approved reported × Within approved approved)
intersect_iff_example = intersect_iff approved reported approved

intersect-fills_example : (fills (intersect reported approved) mounted_file_receive ≡ true) ↔ (
    Needs reported mounted_file_receive
    × Needs approved mounted_file_receive
    × Excludes (reported.clipboard_read && approved.clipboard_read) mounted_file_receive)
intersect-fills_example = intersect-fills reported approved mounted_file_receive

abbrev theme : SettingDecl
theme = record {
  key = codes "theme";
  label = codes "Theme";
  kind = codes "choice";
  default = codes "dark";
  options =
      record { value = codes "dark"; label = codes "Dark" }
      ∷ record { value = codes "light"; label = codes "Light" }
      ∷ [];
  min = none;
  max = none;
}

theme_valid : validate_setting text theme ≡ none
unfolding validate_setting require key_ok every validate_kind kind_of option_ok accepts accepts_as
    bytes_eq
theme_valid = refl

effective-accepted_example :
    ((c : SettingControlKind) × (control_kind theme (kind_of theme.kind) ≡ some c))
    × ((accepts text theme (effective text theme (some (codes "blue"))) ≡ true)
        ⊎ ((effective text theme (some (codes "blue")) ≡ codes "dark")
            × (is_empty theme.default ≡ true)))
effective-accepted_example = effective-accepted text theme (some (codes "blue")) theme_valid

abbrev manifest : PluginManifest
manifest = record {
  manifest_version = 1;
  protocol_version = 1;
  id = codes "cool-files";
  name = codes "Cool files";
  executable = codes "bin/cool";
  args = codes "--mode" ∷ [];
  description = [];
  version = codes "2.0.0";
  author = codes "Someone";
  homepage = none;
  source = none;
  update_url = none;
  license = none;
  bundled = false;
  on_demand = false;
  owns_settings = false;
  capabilities = reported;
  settings = theme ∷ [];
  handshake_ids = codes "gtk-clipboard" ∷ [];
  resources = codes "icons" ∷ [];
}

manifest_valid : validate paths manifest ≡ none
unfolding validate validate_capabilities validate_settings setting_then require is_safe_id every
    fields_ok arg_ok mime_ok unique_from lists does_something is_contained_relative validate_setting
    key_ok validate_kind kind_of option_ok accepts accepts_as bytes_eq
manifest_valid = refl

validate-Sound_example : Sound paths manifest
validate-Sound_example = validate-Sound paths manifest manifest_valid
