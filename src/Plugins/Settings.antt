-- ===== src/Plugins/Settings.antt =====
-- crates/syntra-plugin-api/src/manifest.rs: `SettingDecl`, one setting that a manifest declares.
use syntra.Prelude.{
  ℕ, ◌^◌, ◌-◌, Bool, true, false, not, ◌&&◌, ◌||◌, Option, none, some, List, [], ◌∷◌, ltb, leb,
  ◌==◌, if◌then◌else◌, length, is_empty, any, bytes_eq, codes,
}
use syntra.Proto.Error.{Bytes}

-- What the standard library says of a text: whether nothing is left of it by `str::trim`, and the number
-- that it is for `i64::from_str`, counted from `i64::MIN`.
pub record Text : Type 0 where
  pub is_blank : Bytes → Bool
  pub number : Bytes → Option ℕ

pub record ChoiceDecl : Type 0 where
  pub value : Bytes
  pub label : Bytes

-- The bounds are counted from `i64::MIN` too.
pub record SettingDecl : Type 0 where
  pub key : Bytes
  pub label : Bytes
  pub kind : Bytes
  pub default : Bytes
  pub options : List ChoiceDecl
  pub min : Option ℕ
  pub max : Option ℕ

-- The four words for a kind, and any other one.
pub data Kind : Type 0 where
  toggle choice color number_kind unknown : Kind

-- `match self.kind.as_str()`
unfoldable pub kind_of : Bytes → Kind
kind_of word =
    if bytes_eq word (codes "toggle")
    then toggle
    else if bytes_eq word (codes "choice")
    then choice
    else if bytes_eq word (codes "number")
    then number_kind
    else if bytes_eq word (codes "color")
    then color
    else unknown

abbrev pub max_short_text : ℕ
max_short_text = 256

abbrev pub max_setting_options : ℕ
max_setting_options = 64

abbrev or_value : Option ℕ → ℕ → ℕ
or_value none value = value
or_value (some n) value = n

unfoldable pub range : SettingDecl → ℕ × ℕ
range s = (or_value s.min 0, or_value s.max (2 ^ 64 - 1))

abbrev pub is_digit : ℕ → Bool
is_digit b = leb 48 b && leb b 57

abbrev pub is_lowercase : ℕ → Bool
is_lowercase b = leb 97 b && leb b 122

abbrev pub is_uppercase : ℕ → Bool
is_uppercase b = leb 65 b && leb b 90

abbrev pub is_hexdigit : ℕ → Bool
is_hexdigit b = is_digit b || (leb 97 b && leb b 102 || leb 65 b && leb b 70)

-- `all` of Rust's iterators.
unfoldable pub every {ℓ} : {A : Type ℓ} → (A → Bool) → List A → Bool
every test [] = true
every test (x ∷ xs) = test x && every test xs

abbrev is_hash_color : Bytes → Bool
is_hash_color [] = false
is_hash_color (b ∷ digits) = b == 35 && every is_hexdigit digits

unfoldable pub in_range : ℕ × ℕ → Option ℕ → Bool
in_range bounds none = false
in_range bounds (some n) = leb bounds.0 n && leb n bounds.1

unfoldable pub accepts_as : Text → SettingDecl → Bytes → Kind → Bool
accepts_as text s value toggle = bytes_eq value (codes "true") || bytes_eq value (codes "false")
accepts_as text s value choice = any (λ (o : ChoiceDecl). bytes_eq o.value value) s.options
accepts_as text s value number_kind = in_range (range s) (text.number value)
accepts_as text s value color = is_empty value || (length value == 7 && is_hash_color value)
accepts_as text s value unknown = false

unfoldable pub accepts : Text → SettingDecl → Bytes → Bool
accepts text s value = accepts_as text s value (kind_of s.kind)

unfoldable pub effective : Text → SettingDecl → Option Bytes → Bytes
effective text s none = s.default
effective text s (some value) = if accepts text s value then value else s.default

pub data SettingControlKind : Type 0 where
  toggle_control color_control : SettingControlKind
  choice_control : List ChoiceDecl → SettingControlKind
  number_control : (lowest highest : ℕ) → SettingControlKind

unfoldable pub control_kind : SettingDecl → Kind → Option SettingControlKind
control_kind s toggle = some toggle_control
control_kind s color = some color_control
control_kind s choice = some (choice_control s.options)
control_kind s number_kind = some (number_control (range s).0 (range s).1)
control_kind s unknown = none

-- The reasons for which a setting is refused.
pub data SettingError : Type 0 where
  bad_key no_label long_default bad_options bad_option reversed_range unknown_kind
        unacceptable_default :
      SettingError

-- `if !test { return invalid(..) }`; `none` is `Ok(())`.
unfoldable pub require {ℓ} : {E : Type ℓ} → Bool → E → Option E → Option E
require true error rest = rest
require false error rest = some error

abbrev is_key_byte : ℕ → Bool
is_key_byte b = is_lowercase b || (is_digit b || b == 95)

unfoldable pub key_ok : Bytes → Bool
key_ok [] = false
key_ok (b ∷ bytes) = is_lowercase b && every is_key_byte bytes

unfoldable pub option_ok : Text → ChoiceDecl → Bool
option_ok text o = not (
    is_empty o.value
    || (text.is_blank o.label
        || (ltb max_short_text (length o.value) || ltb max_short_text (length o.label))))

unfoldable pub validate_kind : Text → SettingDecl → Kind → Option SettingError → Option SettingError
validate_kind text s toggle rest = rest
validate_kind text s color rest = rest
validate_kind text s choice rest =
    require (not (is_empty s.options || ltb max_setting_options (length s.options))) bad_options
      (require (every (option_ok text) s.options) bad_option rest)
validate_kind text s number_kind rest = require (leb (range s).0 (range s).1) reversed_range rest
validate_kind text s unknown rest = some unknown_kind

unfoldable pub validate_setting : Text → SettingDecl → Option SettingError
validate_setting text s = require (key_ok s.key && leb (length s.key) max_short_text) bad_key (
    require (not (text.is_blank s.label) && leb (length s.label) max_short_text) no_label (
      require (leb (length s.default) max_short_text) long_default (
        validate_kind text s (kind_of s.kind)
          (require (is_empty s.default || accepts text s s.default) unacceptable_default none))))
