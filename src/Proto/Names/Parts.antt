-- ===== src/Proto/Names/Parts.antt =====
-- The components of a path, and what splitting it at the slashes gives: for `validate_path` of
-- crates/syntra-proto/src/lib.rs.
use syntra.Prelude.{
  ℕ, ◌≡◌, ◌≢◌, refl, sym, ap, ◌∙◌, Bool, false, false≢true, ◌||◌, List, [], ◌∷◌, ◌++◌, arith, ◌==◌,
  any, All, ==_iff, Bool-cases, inl, inr,
}
use syntra.Proto.Error.{Bytes}
use syntra.Proto.Names.{split, split_step}

pub or_false : (a b : Bool) → (a || b) ≡ false → (a ≡ false) × (b ≡ false)
or_false a b h = ground arith

-- The path whose components are the parts.
unfoldable pub join : List Bytes → Bytes
join [] = []
join (p ∷ []) = p
join (p ∷ q ∷ parts) = p ++ b'/' ∷ join (q ∷ parts)

-- A byte of a component: no slash, backslash, colon or NUL.
abbrev pub IsPathByte : ℕ → Type 0
IsPathByte b = (b ≢ b'/') × (b ≢ 0x5c) × (b ≢ b':') × (b ≢ 0)

-- A component names an entry below its directory: it is not empty and neither "." nor "..".
abbrev pub IsComponent : Bytes → Type 0
IsComponent p = (p ≢ []) × (p ≢ b'.' ∷ []) × (p ≢ b'.' ∷ b'.' ∷ []) × All IsPathByte p

pub split-cons : (c : ℕ) (bs : Bytes) → (p : Bytes) × (ps : List Bytes) × (split c bs ≡ p ∷ ps)
unfolding split split_step
split-cons c [] = ([], [], refl)
split-cons c (b ∷ bs) =
    let (p, ps, e) = split-cons c bs in
    elim (Bool-cases (b == c)) [ inl h ↦ ([], p ∷ ps, rw (h, e)) | inr h ↦ (b ∷ p, ps, rw (h, e)) ]

pub join-cons : (b : ℕ) (p : Bytes) (ps : List Bytes) → join ((b ∷ p) ∷ ps) ≡ b ∷ join (p ∷ ps)
unfolding join
join-cons b p [] = refl
join-cons b p (q ∷ ps) = refl

join-split_step :
    (b : ℕ) (p : Bytes) (ps : List Bytes)
    → join (split_step (b == b'/') b (p ∷ ps)) ≡ b ∷ join (p ∷ ps)
unfolding join split_step
join-split_step b p ps = elim (Bool-cases (b == b'/')) [
  | inl h ↦ rw h (ap (λ c. c ∷ join (p ∷ ps)) (sym ((==_iff b b'/').0 h)))
  | inr h ↦ rw h (join-cons b p ps)
]

pub join-split : (bs : Bytes) → join (split b'/' bs) ≡ bs
unfolding split
join-split [] = unfold join in refl
join-split (b ∷ bs) =
    let (p, ps, e) = split-cons b'/' bs in
    rw e (join-split_step b p ps ∙ ap (λ cs. b ∷ cs) (ap join (sym e) ∙ join-split bs))

-- What `any` has refused, every element lacks.
pub any-All {ℓ} :
    {A : Type ℓ} (t : A → Bool) (P : A → Type 0) (xs : List A)
    → ((x : A) → t x ≡ false → P x)
    → any t xs ≡ false
    → All P xs
any-All t P [] f h = tt
any-All t P (x ∷ xs) f h = let (a, b) = or_false (t x) (any t xs) h in (f x a, any-All t P xs f b)

pub any_of_All {ℓ} :
    {A : Type ℓ} (t : A → Bool) (P : A → Type 0) (xs : List A)
    → ((x : A) → P x → t x ≡ false)
    → All P xs
    → any t xs ≡ false
any_of_All t P [] f h = refl
any_of_All t P (x ∷ xs) f h = rw (f x h.0, any_of_All t P xs f h.1)

-- The bytes of the parts are those of the path, less the separator.
All-split_step :
    (P : ℕ → Type 0) (b : ℕ) (parts : List Bytes)
    → (b ≢ b'/' → P b)
    → All (All P) parts
    → All (All P) (split_step (b == b'/') b parts)
unfolding split_step
All-split_step P b parts f h = elim (Bool-cases (b == b'/')) [
  | inl e ↦ rw e (tt, h)
  | inr e ↦ rw e (put parts h (f (λ q. false≢true (sym e ∙ (==_iff b b'/').1 q))))
]
  where
    put : (parts : List Bytes) → All (All P) parts → P b → All (All P) (split_step false b parts)
    put [] h p = ((p, tt), tt)
    put (q ∷ parts) h p = ((p, h.0), h.1)

pub All-split :
    (P : ℕ → Type 0) (bs : Bytes) → All (λ b. b ≢ b'/' → P b) bs → All (All P) (split b'/' bs)
unfolding split
All-split P [] h = (tt, tt)
All-split P (b ∷ bs) h = All-split_step P b (split b'/' bs) h.0 (All-split P bs h.1)

abbrev pub is_bad_byte : ℕ → Bool
is_bad_byte b = b == 0x5c || (b == b':' || b == 0)
