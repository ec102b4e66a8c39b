-- ===== src/Plugins/Choices.antt =====
-- crates/syntra-plugin-api/src/manifest.rs: the values that reach a plugin.
use syntra.Prelude.{
  ◌≡◌, ◌⊎◌, inl, inr, refl, Bool, true, false, ◌||◌, Option, none, some, is_empty, Bool-cases,
  arith,
}
use syntra.Proto.Error.{Bytes}
use syntra.Plugins.Settings.{
  Text, SettingDecl, Kind, toggle, choice, color, number_kind, unknown, kind_of, accepts, effective,
  control_kind, require, validate_kind, validate_setting, SettingError, SettingControlKind,
}

pub require-none :
    {E : Type 0} (test : Bool) (error : E) (rest : Option E)
    → require test error rest ≡ none
    → (test ≡ true) × (rest ≡ none)
unfolding require
require-none true error rest h = (refl, h)
require-none false error rest h = absurd cc

validate_kind-none :
    (text : Text) (s : SettingDecl) (kind : Kind) (rest : Option SettingError)
    → validate_kind text s kind rest ≡ none
    → (rest ≡ none) × ((c : SettingControlKind) × (control_kind s kind ≡ some c))
unfolding validate_kind control_kind
validate_kind-none text s toggle rest h = (h, (_, refl))
validate_kind-none text s color rest h = (h, (_, refl))
validate_kind-none text s choice rest h =
    ((require-none _ _ _ (require-none _ _ _ h).1).1, (_, refl))
validate_kind-none text s number_kind rest h = ((require-none _ _ _ h).1, (_, refl))
validate_kind-none text s unknown rest h = absurd cc

accepted_or_empty :
    (text : Text) (s : SettingDecl)
    → is_empty s.default || accepts text s s.default ≡ true
    → (accepts text s s.default ≡ true) ⊎ ((s.default ≡ s.default) × (is_empty s.default ≡ true))
accepted_or_empty text s h = elim (Bool-cases (accepts text s s.default)) [
  | inl t ↦ inl t
  | inr f ↦ inr (refl, ground arith)
]

effective_or_empty :
    (text : Text) (s : SettingDecl) (chosen : Option Bytes)
    → is_empty s.default || accepts text s s.default ≡ true
    → (accepts text s (effective text s chosen) ≡ true)
      ⊎ ((effective text s chosen ≡ s.default) × (is_empty s.default ≡ true))
unfolding effective
effective_or_empty text s none h = accepted_or_empty text s h
effective_or_empty text s (some value) h = elim (Bool-cases (accepts text s value)) [
  | inl t ↦ rw (t) (inl t)
  | inr f ↦ rw (f) (accepted_or_empty text s h)
]

-- A setting that passed the check has a control, and whatever the user has chosen, now or for an earlier
-- version of the plugin, the value in force is one that the setting accepts, or the declared default
-- where that is left empty.
pub effective-accepted :
    (text : Text) (s : SettingDecl) (chosen : Option Bytes)
    → validate_setting text s ≡ none
    → ((c : SettingControlKind) × (control_kind s (kind_of s.kind) ≡ some c))
      × ((accepts text s (effective text s chosen) ≡ true)
          ⊎ ((effective text s chosen ≡ s.default) × (is_empty s.default ≡ true)))
unfolding validate_setting effective
effective-accepted text s chosen h =
    let key = (require-none _ _ _ h).1 in
    let label = (require-none _ _ _ key).1 in
    let default = (require-none _ _ _ label).1 in
    let (last, control) = validate_kind-none text s (kind_of s.kind) _ default in
    (control, effective_or_empty text s chosen (require-none _ _ _ last).0)
