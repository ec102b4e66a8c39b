-- ===== src/Proto/RoundTrip/Profile.antt =====
-- Round trips of the peer profile messages of crates/syntra-proto.
use syntra.Prelude.{ℕ, ◌≡◌, refl, Bool, true, false, ◌||◌, [], arith, length, append-nil}
use syntra.Proto.Error.{Bytes, ok}
use syntra.Proto.Wire.{◌>>=◌, take_rest, from_utf8}
use syntra.Proto.Wire.Utf8.{is_utf8}
use syntra.Proto.Wire.Scalars.{get_u8-put, get_u32-put, take-append}
use syntra.Proto.Event.{ProtoEvent}
use syntra.Proto.Encode.Profile as Encode
use syntra.Proto.Decode.Profile as Decode
use syntra.Proto.RoundTrip.Basic.{IsU32, IsU64, checked, fail_if-eq-ok, get_nonzero_request_id-put}

pub request-round_trip :
    (request_id : ℕ) (out : Bytes)
    → IsU64 request_id
    → Encode.request request_id ≡ ok out
    → Decode.request out ≡ ok (ProtoEvent.profile_request request_id, [])
unfolding Encode.request Decode.request ◌>>=◌
request-round_trip request_id out h_request_id h =
    let (e, q) = checked _ _ h in
    let nz_request_id = fail_if-eq-ok _ _ e in
    rw (← q, get_nonzero_request_id-put _ request_id h_request_id nz_request_id)

-- The two checks of the sender, which makes them in one test.
or_false : (a b : Bool) → (a || b) ≡ false → (a ≡ false) × (b ≡ false)
or_false a b h = ground arith

pub start-round_trip :
    (request_id width height total_len chunks : ℕ) (name out : Bytes)
    → IsU64 request_id
    → IsU32 width
    → IsU32 height
    → IsU32 total_len
    → IsU32 chunks
    → is_utf8 name ≡ true
    → Encode.start request_id width height total_len chunks name ≡ ok out
    → Decode.start out
      ≡ ok (ProtoEvent.profile_start request_id width height total_len chunks name, [])
unfolding Encode.start Decode.start ◌>>=◌ from_utf8
start-round_trip request_id width height total_len chunks name out hr hw hh ht hc text h =
    let (e, q) = checked _ _ h in
    let (nz, valid) = or_false _ _ (fail_if-eq-ok _ _ e) in
    rw (
      ← q,
      get_nonzero_request_id-put _ request_id hr nz,
      get_u32-put _ width hw,
      get_u32-put _ height hh,
      get_u32-put _ total_len ht,
      get_u32-put _ chunks hc,
      get_u8-put _ (length name),
      valid,
      take-append (length name) name _ refl,
      text,
    )

pub chunk-round_trip :
    (request_id index : ℕ) (bytes out : Bytes)
    → IsU64 request_id
    → IsU32 index
    → Encode.chunk request_id index bytes ≡ ok out
    → Decode.chunk out ≡ ok (ProtoEvent.profile_chunk request_id index bytes, [])
unfolding Encode.chunk Decode.chunk ◌>>=◌ take_rest
chunk-round_trip request_id index bytes out hr hi h =
    let (e, q) = checked _ _ h in
    let (nz, valid) = or_false _ _ (fail_if-eq-ok _ _ e) in
    rw (
      ← q,
      get_nonzero_request_id-put _ request_id hr nz,
      get_u32-put _ index hi,
      append-nil,
      valid,
    )
