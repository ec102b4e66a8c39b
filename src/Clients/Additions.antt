-- ===== src/Clients/Additions.antt =====
-- crates/syntra-core/src/client.rs: clients that are added with their settings, and removed.
use syntra.Prelude.{
  ℕ, ◌+◌, ◌≡◌, refl, sym, subst, ◌∙◌, Bool, true, false, not, Option, none, some, arith, ◌==◌,
  if◌then◌else◌, Bool-cases, inl, inr,
}
use syntra.Proto.Error.{Bytes}
use syntra.Clients.Entry.{Client, default_client}
use syntra.Clients.Manager.{
  ClientManager, ConfigClient, config_of, state_of, lookup, insert, contains, configure,
  with_fingerprint, set_config, set_state, set_peer_fingerprint, remove_client,
}
use syntra.Clients.Maps.{
  map_option, IsSorted, lookup-insert, insert-IsSorted, lookup-delete, delete-IsSorted,
}
use syntra.Clients.Calls.{at, new, gone, View, apply}
use syntra.Clients.Changes.{view, Shows, update_twice}

pub if_not : (b : Bool) (x y : Client) → (if not b then x else y) ≡ (if b then y else x)
if_not true x y = refl
if_not false x y = refl

pub activated :
    (c : Client)
    → (if not c.state.active then record c { state = record c.state { active = true } } else c)
      ≡ record c { state = record c.state { active = true } }
activated c = elim (Bool-cases c.state.active) [ inl t ↦ rw (t) refl | inr f ↦ rw (f) refl ]

pub deactivated :
    (c : Client)
    → (if c.state.active then record c { state = record c.state { active = false } } else c)
      ≡ record c { state = record c.state { active = false } }
deactivated c = elim (Bool-cases c.state.active) [ inl t ↦ rw (t) refl | inr f ↦ rw (f) refl ]

pub added-Shows :
    (m : ClientManager)
    → IsSorted 0 m.clients
    → Shows
        (record m {
          next_handle = m.next_handle + 1;
          clients = insert m.clients m.next_handle default_client;
        })
        (apply (new default_client) (view m))
unfolding view apply
added-Shows m s = record {
  shown = λ i. ((λ k. lookup-insert m.clients m.next_handle default_client k i), m.next_handle + 1);
  sorted = insert-IsSorted m.clients 0 m.next_handle default_client (omega arith) s;
}

-- A configured client is added, and its settings replace the new ones.
pub set_peer_fingerprint-clients :
    (f : Bytes) (m : ClientManager) (h : ℕ)
    → ((set_peer_fingerprint f m h).clients ≡ m.clients)
      × ((set_peer_fingerprint f m h).next_handle ≡ m.next_handle)
unfolding set_peer_fingerprint
set_peer_fingerprint-clients f m h = elim (Bool-cases (contains m h)) [
  | inl t ↦ rw (t) ((refl, refl))
  | inr n ↦ rw (n) ((refl, refl))
]

set_peer_fingerprint-Shows :
    (f : Bytes) (m : ClientManager) (h : ℕ) (v : View)
    → Shows m v
    → Shows (set_peer_fingerprint f m h) v
unfolding view
set_peer_fingerprint-Shows f m h v s =
    let (q, n) = set_peer_fingerprint-clients f m h in
    record {
      shown = (λ i. ((λ k. lookup (q i) k), n i)) ∙ s.shown;
      sorted = subst (λ entries. IsSorted 0 entries) (sym q) s.sorted;
    }

pub fingerprint-Shows :
    (f : Bytes) (m : ClientManager) (h : ℕ)
    → IsSorted 0 m.clients
    → Shows (set_peer_fingerprint f m h) (apply (at h (λ c. c)) (view m))
unfolding view apply
fingerprint-Shows f m h s =
    set_peer_fingerprint-Shows f m h (apply (at h (λ c. c)) (view m)) (record {
      shown = λ i. ((λ k. same (h == k) (lookup m.clients k) i), m.next_handle);
      sorted = s;
    })
  where
    same : (b : Bool) (o : Option Client) → o ≡ (if b then map_option (λ c. c) o else o)
    same true none = refl
    same true (some c) = refl
    same false o = refl

with_fingerprint-Shows :
    (o : Option Bytes) (m : ClientManager) (h : ℕ) (v : View)
    → Shows m v
    → Shows (with_fingerprint o m h) v
with_fingerprint-Shows none m h v s = s
with_fingerprint-Shows (some f) m h v s = set_peer_fingerprint-Shows f m h v s

pub configure-Shows :
    (c : ConfigClient) (m : ClientManager) (h : ℕ)
    → IsSorted 0 m.clients
    → Shows
        (configure c m h)
        (apply (at h (λ x. record { config = config_of c; state = state_of c })) (view m))
unfolding configure set_state set_config
configure-Shows c m h s =
    with_fingerprint-Shows c.peer_fingerprint
      (set_state (state_of c) (set_config (config_of c) m h) h) h _
      (update_twice (λ x. record x { config = config_of c }) (λ x. record x { state = state_of c })
        m h s)

pub add_with-Shows :
    (c : ConfigClient) (m : ClientManager)
    → apply
        (at m.next_handle (λ x. record { config = config_of c; state = state_of c }))
        (apply (new default_client) (view m))
      ≡ apply (new (record { config = config_of c; state = state_of c })) (view m)
unfolding view apply
add_with-Shows c m =
    λ i. ((λ k. same (m.next_handle == k) (lookup m.clients k) i), m.next_handle + 1)
  where
    same :
        (b : Bool) (o : Option Client)
        → (if b
            then map_option
                (λ x. record { config = config_of c; state = state_of c })
                (if b then some default_client else o)
            else if b
            then some default_client
            else o)
          ≡ (if b then some (record { config = config_of c; state = state_of c }) else o)
    same true o = refl
    same false o = refl

pub remove_client-Shows :
    (m : ClientManager) (h : ℕ)
    → IsSorted 0 m.clients
    → Shows (remove_client m h).0 (apply (gone h) (view m))
unfolding remove_client view apply
remove_client-Shows m h s = record {
  shown = λ i. ((λ k. lookup-delete m.clients 0 h k s i), m.next_handle);
  sorted = delete-IsSorted m.clients 0 h s;
}
