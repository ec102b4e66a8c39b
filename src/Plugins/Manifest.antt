-- ===== src/Plugins/Manifest.antt =====
-- crates/syntra-plugin-api/src/manifest.rs: `PluginManifest::validate`.
use syntra.Prelude.{
  ℕ, Bool, true, false, not, ◌&&◌, ◌||◌, Option, none, some, List, [], ◌∷◌, ltb, leb, ◌==◌, length,
  is_empty, any, bytes_eq, codes,
}
use syntra.Proto.Error.{Bytes}
use syntra.Plugins.Capabilities.{Capabilities, PluginRole, roles, lists}
use syntra.Plugins.Settings.{
  Text, SettingDecl, SettingError, validate_setting, require, every, max_short_text, is_digit,
  is_lowercase, is_uppercase,
}

-- What `Path::components` yields.
pub data Component : Type 0 where
  normal : Bytes → Component
  cur_dir parent_dir root_dir prefix : Component

-- The standard library on texts and paths.
pub record Paths : Type 0 where
  pub text : Text
  pub is_relative : Bytes → Bool
  pub components : Bytes → List Component

pub record PluginManifest : Type 0 where
  pub manifest_version : ℕ
  pub protocol_version : ℕ
  pub id : Bytes
  pub name : Bytes
  pub executable : Bytes
  pub args : List Bytes
  pub description : Bytes
  pub version : Bytes
  pub author : Bytes
  pub homepage : Option Bytes
  pub source : Option Bytes
  pub update_url : Option Bytes
  pub license : Option Bytes
  pub bundled : Bool
  pub on_demand : Bool
  pub owns_settings : Bool
  pub capabilities : Capabilities
  pub settings : List SettingDecl
  pub handshake_ids : List Bytes
  pub resources : List Bytes

-- The reasons for which a manifest is refused.
pub data ManifestError : Type 0 where
  unsupported_version unsafe_id no_name no_executable long_description long_field bad_args
        bad_mime_types repeated_mime_type no_operation too_many_settings repeated_setting
        bad_handshake_ids too_many_resources bad_resource :
      ManifestError
  bad_setting : SettingError → ManifestError

abbrev pub is_id_byte : ℕ → Bool
is_id_byte b =
    is_lowercase b || (is_uppercase b || (is_digit b || (b == 46 || (b == 95 || b == 45))))

unfoldable pub is_safe_id : Bytes → Bool
is_safe_id id =
    not (is_empty id)
    && (leb (length id) max_short_text
        && (not (bytes_eq id (codes "."))
            && (not (bytes_eq id (codes "..")) && every is_id_byte id)))

abbrev pub is_inside : Component → Bool
is_inside (normal name) = true
is_inside cur_dir = true
is_inside _ = false

unfoldable pub is_contained_relative : Paths → Bytes → Bool
is_contained_relative paths path =
    not (is_empty path) && (paths.is_relative path && every is_inside (paths.components path))

-- `HashSet::insert` of each one in turn, into the set of those before.
unfoldable pub unique_from : List Bytes → List Bytes → Bool
unique_from seen [] = true
unique_from seen (x ∷ xs) = not (lists seen x) && unique_from (x ∷ seen) xs

abbrev short : Option Bytes → Bool
short none = true
short (some value) = leb (length value) max_short_text

unfoldable pub fields_ok : PluginManifest → Bool
fields_ok m =
    short (some m.version)
    && (short (some m.author)
        && (short m.homepage && (short m.source && (short m.update_url && short m.license))))

unfoldable pub arg_ok : Bytes → Bool
arg_ok argument = not (ltb 1024 (length argument) || any (λ b. b == 0) argument)

unfoldable pub mime_ok : Paths → Bytes → Bool
mime_ok paths mime = not (paths.text.is_blank mime || ltb max_short_text (length mime))

abbrev pub handles_clipboard : Capabilities → Bool
handles_clipboard c = c.clipboard_read || c.paste

unfoldable pub does_something : Capabilities → Bool
does_something c =
    handles_clipboard c && not (is_empty c.mime_types)
    || c.pointer_events && (not (handles_clipboard c) && is_empty c.mime_types)

unfoldable pub validate_capabilities :
    Paths → Capabilities → Option ManifestError → Option ManifestError
validate_capabilities paths c rest =
    require (leb (length c.mime_types) 32 && every (mime_ok paths) c.mime_types) bad_mime_types (
      require (unique_from [] c.mime_types) repeated_mime_type
        (require (does_something c) no_operation rest))

-- A setting that is in order must have a key of its own.
unfoldable pub setting_then :
    Option SettingError → Bool → Option ManifestError → Option ManifestError
setting_then none fresh rest = require fresh repeated_setting rest
setting_then (some e) fresh rest = some (bad_setting e)

-- The loop over the settings, with the keys of those before.
unfoldable pub validate_settings :
    Paths → List Bytes → List SettingDecl → Option ManifestError → Option ManifestError
validate_settings paths seen [] rest = rest
validate_settings paths seen (s ∷ settings) rest =
    let later = validate_settings paths (s.key ∷ seen) settings rest in
    setting_then (validate_setting paths.text s) (not (lists seen s.key)) later

unfoldable pub validate : Paths → PluginManifest → Option ManifestError
validate paths m =
    require (m.manifest_version == 1 && m.protocol_version == 1) unsupported_version (
      require (is_safe_id m.id) unsafe_id (
        require (not (paths.text.is_blank m.name) && leb (length m.name) max_short_text) no_name (
          require (not (is_empty m.executable)) no_executable (
            require (leb (length m.description) 2048) long_description (
              require (fields_ok m) long_field (
                require (leb (length m.args) 32 && every arg_ok m.args) bad_args (
                  validate_capabilities paths m.capabilities (
                    require (leb (length m.settings) 64) too_many_settings (
                      validate_settings paths [] m.settings (
                        require (leb (length m.handshake_ids) 8 && every is_safe_id m.handshake_ids)
                          bad_handshake_ids
                          (require (leb (length m.resources) 256) too_many_resources (
                            require (every (is_contained_relative paths) m.resources) bad_resource
                              none))))))))))))

unfoldable pub manifest_roles : PluginManifest → List PluginRole
manifest_roles m = roles m.capabilities

unfoldable pub accepts_handshake_id : PluginManifest → Bytes → Bool
accepts_handshake_id m adapter_id = bytes_eq adapter_id m.id || lists m.handshake_ids adapter_id
