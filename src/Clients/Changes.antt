-- ===== src/Clients/Changes.antt =====
-- crates/syntra-core/src/client.rs: each way to change a client, as a change of the function from handles
-- to clients.
use syntra.Prelude.{
  ℕ, ◌≡◌, refl, ap, subst, ◌∙◌, Bool, true, false, not, Option, none, some, arith, ◌==◌,
  if◌then◌else◌, Bool-cases, inl, inr,
}
use syntra.Proto.Error.{Bytes}
use syntra.Clients.Entry.{
  Position, Client, same_position, same_text, with_ips, with_hostname, with_pos,
}
use syntra.Clients.Manager.{
  ClientManager, lookup, modify, update, holds, change_if, update_ips, set_hostname, set_pos,
}
use syntra.Clients.Maps.{map_option, IsSorted, lookup-modify, modify-IsSorted}
use syntra.Clients.Calls.{at, View, apply}

unfoldable pub view : ClientManager → View
view m = ((λ k. lookup m.clients k), m.next_handle)

-- A table that has the clients of the view, in the order of their handles.
pub record Shows (m : ClientManager) (v : View) : Type 0 where
  pub shown : view m ≡ v
  pub sorted : IsSorted 0 m.clients

pub update-Shows :
    (change : Client → Client) (m : ClientManager) (h : ℕ)
    → IsSorted 0 m.clients
    → Shows (update change m h) (apply (at h change) (view m))
unfolding update view apply
update-Shows change m h s = record {
  shown = λ i. ((λ k. lookup-modify change m.clients h k i), m.next_handle);
  sorted = modify-IsSorted change m.clients 0 h s;
}

map_option-ext :
    (f g : Client → Client) (o : Option Client)
    → ((c : Client) → f c ≡ g c)
    → map_option f o ≡ map_option g o
map_option-ext f g none e = refl
map_option-ext f g (some c) e = ap (λ x. some x) (e c)

-- Changes that come to the same on each client.
at-ext :
    (f g : Client → Client) (h : ℕ) (v : View)
    → ((c : Client) → f c ≡ g c)
    → apply (at h f) v ≡ apply (at h g) v
unfolding apply
at-ext f g h v e = λ i. ((λ k. if h == k then map_option-ext f g (v.0 k) e i else v.0 k), v.1)

pub as_change :
    (m : ClientManager) (f g : Client → Client) (h : ℕ) (v : View)
    → Shows m (apply (at h f) v)
    → ((c : Client) → f c ≡ g c)
    → Shows m (apply (at h g) v)
as_change m f g h v s e = record { shown = s.shown ∙ at-ext f g h v e; sorted = s.sorted }

map_option_twice :
    (f g : Client → Client) (o : Option Client)
    → map_option g (map_option f o) ≡ map_option (λ c. g (f c)) o
map_option_twice f g none = refl
map_option_twice f g (some c) = refl

-- A second change of the same client.
pub update_twice :
    (f g : Client → Client) (m : ClientManager) (h : ℕ)
    → IsSorted 0 m.clients
    → Shows (update g (update f m h) h) (apply (at h (λ c. g (f c))) (view m))
unfolding update view apply
update_twice f g m h s = record {
  shown = λ i. ((λ k. twice k i), m.next_handle);
  sorted = modify-IsSorted g (modify f m.clients h) 0 h (modify-IsSorted f m.clients 0 h s);
}
  where
    twice :
        (k : ℕ)
        → lookup (modify g (modify f m.clients h) h) k
          ≡ (if h == k then map_option (λ c. g (f c)) (lookup m.clients k) else lookup m.clients k)
    twice k =
        let first = lookup-modify f m.clients h k in
        let second = lookup-modify g (modify f m.clients h) h k in
        elim (Bool-cases (h == k)) [
          | inl t ↦ rw (second, first, t) (map_option_twice f g (lookup m.clients k))
          | inr n ↦ rw (second, first, n) refl
        ]

keep_if :
    (test : Client → Bool) (change : Client → Client) (o : Option Client)
    → holds test o ≡ false
    → o ≡ map_option (λ c. if test c then change c else c) o
unfolding holds
keep_if test change none q = refl
keep_if test change (some c) q = rw (q) refl

change_if-holds :
    (test : Client → Bool) (change : Client → Client) (o : Option Client)
    → holds test o ≡ true
    → map_option change o ≡ map_option (λ c. if test c then change c else c) o
unfolding holds
change_if-holds test change none q = refl
change_if-holds test change (some c) q = rw (q) refl

-- Without the test nothing changes, and with it a change is made: this comes to one change.
unchanged-Shows :
    (test : Client → Bool) (change : Client → Client) (m : ClientManager) (h : ℕ)
    → IsSorted 0 m.clients
    → holds test (lookup m.clients h) ≡ false
    → Shows m (apply (at h (λ c. if test c then change c else c)) (view m))
unfolding view apply
unchanged-Shows test change m h s q = record {
  shown = λ i. ((λ k. same k i), m.next_handle);
  sorted = s;
}
  where
    same :
        (k : ℕ)
        → lookup m.clients k ≡ (
            if h == k
            then map_option (λ c. if test c then change c else c) (lookup m.clients k)
            else lookup m.clients k)
    same k = elim (Bool-cases (h == k)) [
      | inl t ↦
          let here : h ≡ k = ground arith in
          rw (t) (
            keep_if test change (lookup m.clients k)
              (subst (λ x. holds test (lookup m.clients x) ≡ false) here q))
      | inr n ↦ rw (n) refl
    ]

changed-Shows :
    (test : Client → Bool) (change : Client → Client) (m t : ClientManager) (h : ℕ)
    → holds test (lookup m.clients h) ≡ true
    → Shows t (apply (at h change) (view m))
    → Shows t (apply (at h (λ c. if test c then change c else c)) (view m))
unfolding view apply
changed-Shows test change m t h q s = record {
  shown = s.shown ∙ (λ i. ((λ k. same k i), m.next_handle));
  sorted = s.sorted;
}
  where
    same :
        (k : ℕ)
        → (if h == k then map_option change (lookup m.clients k) else lookup m.clients k) ≡ (
            if h == k
            then map_option (λ c. if test c then change c else c) (lookup m.clients k)
            else lookup m.clients k)
    same k = elim (Bool-cases (h == k)) [
      | inl t ↦
          let here : h ≡ k = ground arith in
          rw (t) (
            change_if-holds test change (lookup m.clients k)
              (subst (λ x. holds test (lookup m.clients x) ≡ true) here q))
      | inr n ↦ rw (n) refl
    ]

pub change_if-Shows :
    (test : Client → Bool) (change : Client → Client) (m : ClientManager) (h : ℕ)
    → IsSorted 0 m.clients
    → Shows
        (change_if test change m h).0
        (apply (at h (λ c. if test c then change c else c)) (view m))
unfolding change_if
change_if-Shows test change m h s = elim (Bool-cases (holds test (lookup m.clients h))) [
  | inl t ↦ rw (t) (changed-Shows test change m (update change m h) h t (update-Shows change m h s))
  | inr f ↦ rw (f) (unchanged-Shows test change m h s f)
]

pub set_hostname-Shows :
    (name : Option Bytes) (m : ClientManager) (h : ℕ)
    → IsSorted 0 m.clients
    → Shows (set_hostname name m h).0 (
        apply
          (at h (λ c.
            if not (same_text c.config.hostname name) then with_ips (with_hostname name c) else c))
          (view m))
unfolding set_hostname update_ips
set_hostname-Shows name m h s =
    let test : Client → Bool = λ c. not (same_text c.config.hostname name) in
    elim (Bool-cases (holds test (lookup m.clients h))) [
      | inl t ↦ rw (t) (
          changed-Shows test (λ c. with_ips (with_hostname name c)) m
            (update with_ips (update (with_hostname name) m h) h) h t
            (update_twice (with_hostname name) with_ips m h s))
      | inr f ↦ rw (f) (unchanged-Shows test (λ c. with_ips (with_hostname name c)) m h s f)
    ]

pub set_pos-Shows :
    (p : Position) (m : ClientManager) (h : ℕ)
    → IsSorted 0 m.clients
    → Shows (set_pos p m h).0 (
        apply (at h (λ c. if not (same_position c.config.pos p) then with_pos p c else c)) (view m))
unfolding set_pos
set_pos-Shows p m h s =
    let test : Client → Bool = λ c. not (same_position c.config.pos p) in
    elim (Bool-cases (holds test (lookup m.clients h))) [
      | inl t ↦ rw (t) (
          changed-Shows test (with_pos p) m (update (with_pos p) m h) h t
            (update-Shows (with_pos p) m h s))
      | inr f ↦ rw (f) (unchanged-Shows test (with_pos p) m h s f)
    ]
