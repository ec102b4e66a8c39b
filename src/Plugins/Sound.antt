-- ===== src/Plugins/Sound.antt =====
-- crates/syntra-plugin-api/src/manifest.rs: what a manifest that passed the check is.
use syntra.Prelude.{
  ◌⊎◌, inl, inr, Bool-cases, ℕ, ◌≡◌, ◌≢◌, refl, sym, subst, ◌∙◌, Bool, true, false, false≢true,
  ◌||◌, Option, none, some, List, [], ◌∷◌, map, is_empty, All, arith, bytes_eq, bytes_eq_refl,
  codes,
}
use syntra.Proto.Error.{Bytes}
use syntra.Proto.Names.Parts.{IsComponent, IsPathByte}
use syntra.Plugins.Capabilities.{Capabilities, lists}
use syntra.Plugins.Settings.{SettingDecl, SettingError, validate_setting, every}
use syntra.Plugins.Manifest.{
  Paths, Component, parent_dir, root_dir, prefix, PluginManifest, ManifestError, is_safe_id,
  is_id_byte, is_contained_relative, is_inside, unique_from, does_something, validate_capabilities,
  setting_then, validate_settings, validate,
}
use syntra.Plugins.Choices.{require-none}

module _ {ℓ} {A : Type ℓ} where
  pub every-All {κ} :
      (test : A → Bool) (P : A → Type κ) (xs : List A)
      → ((x : A) → test x ≡ true → P x)
      → every test xs ≡ true
      → All P xs
  unfolding every
  every-All test P [] f h = tt
  every-All test P (x ∷ xs) f h = (f x (ground arith), every-All test P xs f (ground arith))

  pub All-imp {κ μ} :
      (P : A → Type κ) (Q : A → Type μ) (xs : List A) → ((x : A) → P x → Q x) → All P xs → All Q xs
  All-imp P Q [] f h = tt
  All-imp P Q (x ∷ xs) f (h, hs) = (f x h, All-imp P Q xs f hs)

-- No two of a list are the same.
unfoldable pub Distinct : List Bytes → Type 0
Distinct [] = Unit
Distinct (x ∷ xs) = All (λ y. x ≢ y) xs × Distinct xs

differs :
    (seen : List Bytes) (x y : Bytes)
    → lists (x ∷ seen) y ≡ false
    → (x ≢ y) × (lists seen y ≡ false)
unfolding lists
differs seen x y h = (
  λ q.
      false≢true
        (sym h ∙ subst (λ z. bytes_eq x z || lists seen z ≡ true) q (rw (bytes_eq_refl x) refl)),
  ground arith,
)

unique_from-Distinct :
    (seen xs : List Bytes)
    → unique_from seen xs ≡ true
    → Distinct xs × All (λ x. lists seen x ≡ false) xs
unfolding unique_from Distinct
unique_from-Distinct seen [] h = (tt, tt)
unique_from-Distinct seen (x ∷ xs) h =
    let (d, new) = unique_from-Distinct (x ∷ seen) xs (ground arith) in
    (
      (All-imp _ (λ y. x ≢ y) xs (λ y f. (differs seen x y f).0) new, d),
      (ground arith, All-imp _ (λ y. lists seen y ≡ false) xs (λ y f. (differs seen x y f).1) new),
    )

setting_then-none :
    (o : Option SettingError) (fresh : Bool) (rest : Option ManifestError)
    → setting_then o fresh rest ≡ none
    → (o ≡ none) × (fresh ≡ true) × (rest ≡ none)
unfolding setting_then
setting_then-none none fresh rest h = let (f, r) = require-none fresh _ rest h in (refl, f, r)
setting_then-none (some e) fresh rest h = absurd cc

-- An element that differs from those of a list of settings, by their keys.
All-keys :
    (x : Bytes) (seen : List Bytes) (settings : List SettingDecl)
    → All (λ (s : SettingDecl). lists (x ∷ seen) s.key ≡ false) settings
    → All (λ y. x ≢ y) (map (λ (s : SettingDecl). s.key) settings)
All-keys x seen [] h = tt
All-keys x seen (s ∷ settings) (h, hs) = ((differs seen x s.key h).0, All-keys x seen settings hs)

validate_settings-none :
    (paths : Paths) (seen : List Bytes) (settings : List SettingDecl) (rest : Option ManifestError)
    → validate_settings paths seen settings rest ≡ none
    → All (λ s. validate_setting paths.text s ≡ none) settings
      × Distinct (map (λ (s : SettingDecl). s.key) settings)
      × All (λ (s : SettingDecl). lists seen s.key ≡ false) settings
      × (rest ≡ none)
unfolding validate_settings Distinct
validate_settings-none paths seen [] rest h = (tt, tt, tt, h)
validate_settings-none paths seen (s ∷ settings) rest h =
    let (valid, fresh, later) = setting_then-none _ _ _ h in
    let (vs, d, new, r) = validate_settings-none paths (s.key ∷ seen) settings rest later in
    (
      (valid, vs),
      (All-keys s.key seen settings new, d),
      (
        ground (arith, fresh),
        All-imp _ (λ (t : SettingDecl). lists seen t.key ≡ false) settings
            (λ t f. (differs seen s.key t.key f).1) new,
      ),
      r,
    )

-- A safe identifier is one component of a path.
id_byte : (b : ℕ) → is_id_byte b ≡ true → IsPathByte b
id_byte b h = (λ q. ground arith, λ q. ground arith, λ q. ground arith, λ q. ground arith)

not_text : (id word : Bytes) → bytes_eq id word ≡ false → id ≢ word
not_text id word h q = false≢true (sym h ∙ subst (λ x. bytes_eq id x ≡ true) q (bytes_eq_refl id))

is_safe_id-IsComponent : (id : Bytes) → is_safe_id id ≡ true → IsComponent id
unfolding is_safe_id
is_safe_id-IsComponent id h =
    let e : is_empty id ≡ false = ground arith in
    (
      (λ q. false≢true (sym e ∙ rw (q) refl)),
      not_text id (codes ".") (ground arith),
      not_text id (codes "..") (ground arith),
      every-All is_id_byte IsPathByte id id_byte (ground arith),
    )

-- A path that is not absolute and none of whose components leads upwards or to a root.
unfoldable pub IsContained : Paths → Bytes → Type 0
IsContained paths path =
    (paths.is_relative path ≡ true)
    × All (λ c. (c ≢ parent_dir) × (c ≢ root_dir) × (c ≢ prefix)) (paths.components path)

-- Something to do: copies or pastes of some MIME types, or pointer events and nothing else.
unfoldable pub Operates : Capabilities → Type 0
Operates c =
    (((c.clipboard_read ≡ true) ⊎ (c.paste ≡ true)) × (c.mime_types ≢ []))
    ⊎ ((c.pointer_events ≡ true)
        × (c.clipboard_read ≡ false)
        × (c.paste ≡ false)
        × (c.mime_types ≡ []))

-- What a manifest declares that passed the check.
pub record Sound (paths : Paths) (m : PluginManifest) : Type 0 where
  pub first_version : (m.manifest_version ≡ 1) × (m.protocol_version ≡ 1)
  pub safe_id : IsComponent m.id
  pub safe_handshake_ids : All IsComponent m.handshake_ids
  pub distinct_mime_types : Distinct m.capabilities.mime_types
  pub distinct_keys : Distinct (map (λ (s : SettingDecl). s.key) m.settings)
  pub valid_settings : All (λ s. validate_setting paths.text s ≡ none) m.settings
  pub contained : All (IsContained paths) m.resources
  pub operates : Operates m.capabilities

inside : (c : Component) → is_inside c ≡ true → (c ≢ parent_dir) × (c ≢ root_dir) × (c ≢ prefix)
inside c h =
    (λ q. outside parent_dir q refl, λ q. outside root_dir q refl, λ q. outside prefix q refl)
  where
    outside : (d : Component) → c ≡ d → is_inside d ≡ false → ⊥
    outside d q f = false≢true (sym f ∙ subst (λ x. is_inside x ≡ true) q h)

is_contained_relative-IsContained :
    (paths : Paths) (path : Bytes)
    → is_contained_relative paths path ≡ true
    → IsContained paths path
unfolding is_contained_relative IsContained
is_contained_relative-IsContained paths path h =
    (ground arith, every-All is_inside _ (paths.components path) inside (ground arith))

is_empty-nil : (xs : List Bytes) → is_empty xs ≡ true → xs ≡ []
is_empty-nil [] h = refl
is_empty-nil (x ∷ xs) h = cc

not_empty : (xs : List Bytes) → is_empty xs ≡ false → xs ≢ []
not_empty xs h q = false≢true (sym h ∙ rw (q) refl)

does_something-Operates : (c : Capabilities) → does_something c ≡ true → Operates c
unfolding does_something Operates
does_something-Operates c h = elim (Bool-cases (c.clipboard_read || c.paste)) [
  | inl t ↦ inl (ground arith, not_empty c.mime_types (ground arith))
  | inr f ↦ inr (ground arith, ground arith, ground arith, is_empty-nil c.mime_types (ground arith))
]

-- A manifest that passed the check names both first versions; its identifier and those it may announce are
-- each one component of a path, so that none leads out of a directory; its MIME types are distinct; so are
-- the keys of its settings, which all passed their check; a resource's path is relative and no component of
-- it leads upwards or to a root; and it declares either a clipboard operation and MIME types, or pointer events
-- alone.
pub validate-Sound : (paths : Paths) (m : PluginManifest) → validate paths m ≡ none → Sound paths m
unfolding validate validate_capabilities
validate-Sound paths m h =
    let (versions, h1) = require-none _ _ _ h in
    let (id, h2) = require-none _ _ _ h1 in
    let h3 = (require-none _ _ _ h2).1 in
    let h4 = (require-none _ _ _ h3).1 in
    let h5 = (require-none _ _ _ h4).1 in
    let h6 = (require-none _ _ _ h5).1 in
    let h7 = (require-none _ _ _ h6).1 in
    let (mimes, h8) = require-none _ _ _ h7 in
    let (distinct, h9) = require-none _ _ _ h8 in
    let (operates, h10) = require-none _ _ _ h9 in
    let h11 = (require-none _ _ _ h10).1 in
    let (valid, keys, new, h12) = validate_settings-none paths [] m.settings _ h11 in
    let (ids, h13) = require-none _ _ _ h12 in
    let h14 = (require-none _ _ _ h13).1 in
    let resources = (require-none _ _ _ h14).0 in
    record {
      first_version = (ground (arith, versions), ground (arith, versions));
      safe_id = is_safe_id-IsComponent m.id id;
      safe_handshake_ids =
          every-All is_safe_id IsComponent m.handshake_ids is_safe_id-IsComponent
            (ground (arith, ids));
      distinct_mime_types = (unique_from-Distinct [] m.capabilities.mime_types distinct).0;
      distinct_keys = keys;
      valid_settings = valid;
      contained =
          every-All (is_contained_relative paths) (IsContained paths) m.resources
            (is_contained_relative-IsContained paths) resources;
      operates = does_something-Operates m.capabilities operates;
    }
