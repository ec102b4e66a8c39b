-- ===== src/HistorySync/Clear.antt =====
-- crates/syntra-core/src/history_sync.rs: boundaries of a clear, and `ClearCoordinator`, which asks
-- every peer how far its history goes and then has all of them clear it.
use syntra.Prelude.{
  ℕ, ◌+◌, ◌-◌, ◌^◌, Bool, true, false, not, Option, none, some, List, [], ◌∷◌, ◌++◌, String,
  if◌then◌else◌, length, is_empty, bytes_eq, max, min,
}
use syntra.Prelude.Equality.{Equality, equals}
use syntra.Proto.Error.{Bytes}
use syntra.Proto.Event.{Boundary}
use syntra.HistorySync.Reassembler.{clear_timeout}

-- `ClearBoundary`, a map from the id of a device to a sequence number: no key stands twice.
unfoldable pub lookup : Boundary → Bytes → Option ℕ
unfolding bytes_eq
lookup [] origin = none
lookup ((known, sequence) ∷ entries) origin =
    if bytes_eq known origin then some sequence else lookup entries origin

-- `entry(origin).and_modify(max).or_insert(sequence)`
unfoldable pub raise : Boundary → Bytes → ℕ → Boundary
unfolding bytes_eq
raise [] origin sequence = (origin, sequence) ∷ []
raise ((known, reached) ∷ entries) origin sequence =
    if bytes_eq known origin
    then (known, max reached sequence) ∷ entries
    else (known, reached) ∷ raise entries origin sequence

unfoldable pub union_boundary : Boundary → Boundary → Boundary
union_boundary target [] = target
union_boundary target ((origin, sequence) ∷ source) =
    union_boundary (raise target origin sequence) source

unfoldable pub boundary_from_wire : Boundary → Boundary
boundary_from_wire entries = union_boundary [] entries

-- `HashSet<P>`: no element stands twice.
module _ {P : Type 0} ⦃e : Equality P⦄ where
  unfoldable pub contains : List P → P → Bool
  contains [] peer = false
  contains (p ∷ peers) peer = if equals p peer then true else contains peers peer

  unfoldable pub remove : List P → P → List P
  remove [] peer = []
  remove (p ∷ peers) peer = if equals p peer then peers else p ∷ remove peers peer

pub record ClearCoordinator (P : Type 0) : Type 0 where
  pub operation_id : Bytes
  pub boundary : Boundary
  pub awaiting_boundaries : List P
  pub peer_count : ℕ
  pub participants : List P
  pub awaiting_acks : List P
  pub affected : ℕ
  pub errors : List String
  pub deadline : ℕ
  pub applying : Bool

module _ {P : Type 0} where
  unfoldable pub new : Bytes → List P → Boundary → ℕ → ClearCoordinator P
  new operation_id peers boundary now = record {
    operation_id = operation_id;
    boundary = boundary;
    awaiting_boundaries = peers;
    peer_count = length peers;
    participants = peers;
    awaiting_acks = [];
    affected = 0;
    errors = [];
    deadline = now + clear_timeout;
    applying = false;
  }

  unfoldable pub begin_apply : ClearCoordinator P → List P → ℕ → ℕ → ClearCoordinator P
  begin_apply c peers local_affected now = record c {
    applying = true;
    awaiting_acks = peers;
    affected = local_affected;
    deadline = now + clear_timeout;
  }

-- `self.errors.push(error)` if there is one.
unfoldable pub push_error : List String → Option String → List String
push_error errors none = errors
push_error errors (some error) = errors ++ error ∷ []

module _ {P : Type 0} ⦃e : Equality P⦄ where
  unfoldable pub add_boundary : ClearCoordinator P → P → Boundary → ClearCoordinator P × Bool
  add_boundary c peer boundary = if not (contains c.awaiting_boundaries peer) then (c, false) else (
    record c {
      awaiting_boundaries = remove c.awaiting_boundaries peer;
      boundary = union_boundary c.boundary boundary;
    },
    is_empty (remove c.awaiting_boundaries peer),
  )

  -- `saturating_add` of `usize` values.
  unfoldable pub add_ack : ClearCoordinator P → P → ℕ → Option String → ClearCoordinator P × Bool
  add_ack c peer affected error = if not (contains c.awaiting_acks peer) then (c, false) else (
    record c {
      awaiting_acks = remove c.awaiting_acks peer;
      affected = min (c.affected + affected) (2 ^ 64 - 1);
      errors = push_error c.errors error;
    },
    is_empty (remove c.awaiting_acks peer),
  )

  -- The second set is looked at only if the peer was not in the first.
  unfoldable pub peer_lost : ClearCoordinator P → P → ClearCoordinator P
  peer_lost c peer =
      if contains c.awaiting_boundaries peer
      then record c {
        awaiting_boundaries = remove c.awaiting_boundaries peer;
        errors = push_error c.errors (some "peer disconnected during global clear");
      }
      else if contains c.awaiting_acks peer
      then record c {
        awaiting_acks = remove c.awaiting_acks peer;
        errors = push_error c.errors (some "peer disconnected during global clear");
      }
      else c
