-- ===== src/Clients/Addresses.antt =====
-- crates/syntra-core/src/client.rs: the addresses of a client are the fixed ones and the resolved ones.
use syntra.Prelude.{
  ℕ, ◌≤◌, ◌^◌, ◌≡◌, refl, ap, sym, subst, ◌∙◌, Bool, true, false, Option, none, some, List, [], ◌∷◌,
  ◌++◌, append-nil, arith, ◌==◌, if◌then◌else◌, Bool-cases, inl, inr, length, All,
}
use syntra.Clients.Entry.{Client, same_text, same_position, with_port, with_alive}
use syntra.Clients.Manager.{ClientManager, lookup, default}
use syntra.Clients.Maps.{map_option, IsSorted}
use syntra.Clients.Calls.{
  Call, add, add_with, remove, activate, deactivate, config, state, fingerprint, fix_ips, dns_ips,
  hostname, enter_hook, peer_commit, port, round_trip, pos, active_addr, resolving, alive,
  remote_ready, run, Change, at, new, gone, View, apply, meaning, meanings,
}
use syntra.Clients.Changes.{view}
use syntra.Clients.Refinement.{run-Shows}

-- A call that does not replace the whole configuration or state of a client.
unfoldable pub IsPlain : Call → Type 0
IsPlain (config g h) = ⊥
IsPlain (state t h) = ⊥
IsPlain _ = Unit

-- Every client of the view has its addresses.
abbrev HaveIps : View → Type 0
HaveIps v =
    (k : ℕ) (c : Client) → v.0 k ≡ some c → c.state.ips ≡ c.config.fix_ips ++ c.state.dns_ips

-- A change that keeps the addresses in order.
KeepsIps : Change → Type 0
KeepsIps change = (v : View) → HaveIps v → HaveIps (apply change v)

at-KeepsIps :
    (h : ℕ) (f : Client → Client)
    → ((c : Client)
        → c.state.ips ≡ c.config.fix_ips ++ c.state.dns_ips
        → (f c).state.ips ≡ (f c).config.fix_ips ++ (f c).state.dns_ips)
    → KeepsIps (at h f)
unfolding apply KeepsIps
at-KeepsIps h f keeps v have k c q = go (h == k) (v.0 k) refl q
  where
    go :
        (b : Bool) (o : Option Client)
        → v.0 k ≡ o
        → (if b then map_option f o else o) ≡ some c
        → c.state.ips ≡ c.config.fix_ips ++ c.state.dns_ips
    go true none e q = absurd cc
    go true (some d) e q =
        let same : f d ≡ c = cc in
        subst (λ x. x.state.ips ≡ x.config.fix_ips ++ x.state.dns_ips) same (keeps d (have k d e))
    go false o e q = have k c (e ∙ q)

new-KeepsIps : (d : Client) → d.state.ips ≡ d.config.fix_ips ++ d.state.dns_ips → KeepsIps (new d)
unfolding apply KeepsIps
new-KeepsIps d keeps v have k c q = elim (Bool-cases (v.1 == k)) [
  | inl t ↦
      let same : d ≡ c = ground arith in
      subst (λ x. x.state.ips ≡ x.config.fix_ips ++ x.state.dns_ips) same keeps
  | inr n ↦ have k c (ground arith)
]

gone-KeepsIps : (h : ℕ) → KeepsIps (gone h)
unfolding apply KeepsIps
gone-KeepsIps h v have k c q = elim (Bool-cases (h == k)) [
  | inl t ↦ absurd (ground arith)
  | inr n ↦ have k c (ground arith)
]

meaning-KeepsIps : (call : Call) → IsPlain call → KeepsIps (meaning call)
unfolding meaning IsPlain KeepsIps with_port with_alive
meaning-KeepsIps add plain = new-KeepsIps _ refl
meaning-KeepsIps (add_with c) plain = new-KeepsIps _ (sym (append-nil c.ips))
meaning-KeepsIps (remove h) plain = gone-KeepsIps h
meaning-KeepsIps (config g h) plain = absurd plain
meaning-KeepsIps (state t h) plain = absurd plain
meaning-KeepsIps (fix_ips ips h) plain = at-KeepsIps h _ (λ c q. refl)
meaning-KeepsIps (dns_ips ips h) plain = at-KeepsIps h _ (λ c q. refl)
meaning-KeepsIps (activate h) plain = at-KeepsIps h _ (λ c q. q)
meaning-KeepsIps (deactivate h) plain = at-KeepsIps h _ (λ c q. q)
meaning-KeepsIps (fingerprint f h) plain = at-KeepsIps h _ (λ c q. q)
meaning-KeepsIps (hostname name h) plain = at-KeepsIps h _ (λ c q.
    elim (Bool-cases (same_text c.config.hostname name)) [ inl t ↦ rw (t) q | inr f ↦ rw (f) refl ])
meaning-KeepsIps (enter_hook hook h) plain = at-KeepsIps h _ (λ c q. q)
meaning-KeepsIps (peer_commit commit h) plain = at-KeepsIps h _ (λ c q. q)
meaning-KeepsIps (port n h) plain =
    at-KeepsIps h _
      (λ c q. elim (Bool-cases (c.config.port == n)) [ inl t ↦ rw (t) q | inr f ↦ rw (f) q ])
meaning-KeepsIps (round_trip n h) plain = at-KeepsIps h _ (λ c q. q)
meaning-KeepsIps (pos p h) plain = at-KeepsIps h _ (λ c q.
    elim (Bool-cases (same_position c.config.pos p)) [ inl t ↦ rw (t) q | inr f ↦ rw (f) q ])
meaning-KeepsIps (active_addr a h) plain = at-KeepsIps h _ (λ c q. q)
meaning-KeepsIps (resolving b h) plain = at-KeepsIps h _ (λ c q. q)
meaning-KeepsIps (alive true h) plain = at-KeepsIps h _ (λ c q. q)
meaning-KeepsIps (alive false h) plain = at-KeepsIps h _ (λ c q. q)
meaning-KeepsIps (remote_ready b h) plain = at-KeepsIps h _ (λ c q. q)

meanings-HaveIps :
    (calls : List Call) (v : View) → All IsPlain calls → HaveIps v → HaveIps (meanings calls v)
unfolding meanings KeepsIps
meanings-HaveIps [] v plain have = have
meanings-HaveIps (call ∷ calls) v (p, plain) have =
    meanings-HaveIps calls (apply (meaning call) v) plain (meaning-KeepsIps call p v have)

-- After any calls on the new table that do not replace a whole configuration or state, the addresses of
-- each client are its fixed ones and then those that were resolved; and while handles are left, the calls
-- do not panic.
pub ips_union :
    (calls : List Call)
    → All IsPlain calls
    → length calls ≤ 2 ^ 63
    → (t : ClientManager) × (run calls default ≡ some t)
      × ((k : ℕ) (c : Client)
          → lookup t.clients k ≡ some c
          → c.state.ips ≡ c.config.fix_ips ++ c.state.dns_ips)
unfolding default view lookup IsSorted
ips_union calls plain room =
    let (t, returns, shows) = run-Shows calls default tt (omega arith) in
    let have = meanings-HaveIps calls (view default) plain (λ k c q. absurd cc) in
    (t, returns, λ k c q. have k c (sym (ap (λ v. v.0 k) shows.shown) ∙ q))
