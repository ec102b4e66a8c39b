-- ===== src/Clients/Handles.antt =====
-- crates/syntra-core/src/client.rs: a handle is not given out again.
use syntra.Prelude.{
  ℕ, ◌+◌, ◌≤◌, ◌<◌, ◌^◌, ◌≡◌, refl, ap, ◌∙◌, true, false, none, some, List, [], ◌∷◌, arith, ◌==◌,
  length,
}
use syntra.Clients.Manager.{ClientManager, lookup, holds, contains}
use syntra.Clients.Maps.{IsSorted}
use syntra.Clients.Calls.{Call, remove, run, Change, at, new, gone, View, apply, meaning, meanings}
use syntra.Clients.Changes.{view}
use syntra.Clients.Refinement.{run-Shows, apply-next}

apply_absent :
    (change : Change) (v : View) (h : ℕ) → h < v.1 → v.0 h ≡ none → (apply change v).0 h ≡ none
unfolding apply
apply_absent (at k f) v h lt q = rw (q) (ground arith)
apply_absent (new c) v h lt q = let other : (v.1 == h) ≡ false = ground arith in rw (other) q
apply_absent (gone k) v h lt q = rw (q) (ground arith)

meanings_absent :
    (calls : List Call) (v : View) (h : ℕ) → h < v.1 → v.0 h ≡ none → (meanings calls v).0 h ≡ none
unfolding meanings
meanings_absent [] v h lt q = q
meanings_absent (call ∷ calls) v h lt q =
    let more = (apply-next (meaning call) v).0 in
    meanings_absent calls (apply (meaning call) v) h (omega (arith, more))
      (apply_absent (meaning call) v h lt q)

-- A handle that was given out is never that of a client again once its client is removed, whatever calls
-- follow; and while handles are left, they do not panic.
pub removed_handle :
    (calls : List Call) (m : ClientManager) (h : ℕ)
    → IsSorted 0 m.clients
    → h < m.next_handle
    → m.next_handle + length (remove h ∷ calls) ≤ 2 ^ 63
    → (t : ClientManager) × (run (remove h ∷ calls) m ≡ some t) × (contains t h ≡ false)
unfolding contains holds meanings meaning view apply
removed_handle calls m h s given room =
    let (t, returns, shows) = run-Shows (remove h ∷ calls) m s room in
    let same : (h == h) ≡ true = ground arith in
    let absent = meanings_absent calls (apply (gone h) (view m)) h given (rw (same) refl) in
    let found : lookup t.clients h ≡ none = ap (λ v. v.0 h) shows.shown ∙ absent in
    (t, returns, rw (found) refl)
