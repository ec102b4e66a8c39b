-- ===== src/Proto/RoundTrip.antt =====
-- The round trip of crates/syntra-proto/src/lib.rs: `encode` and then `decode`.
pub mod Basic
pub mod Pointer
pub mod Profile
pub mod Clipboard
pub mod Manifest
pub mod History
pub mod Manual
use syntra.Prelude.{
  ℕ, ◌<◌, ◌^◌, ◌≡◌, refl, subst, Bool, true, false, Option, none, some, List, [], ◌∷◌, ◌++◌, arith,
  length, concat, ltb, ◌==◌, min, take,
}
use syntra.Proto.Error.{Bytes, Result, ok, err, ok-injective, fail_if}
use syntra.Proto.Wire.{Decoder, get_u8, pure, ◌>>=◌}
use syntra.Proto.Wire.Utf8.{is_utf8}
use syntra.Proto.Wire.Scalars.{IsI32, get_u8-put}
use syntra.Proto.Wire.Optional.{FitsU64, IsText}
use syntra.Proto.Event.{ProtoEvent, InputEvent, PointerEvent, KeyboardEvent}
use syntra.Proto.EventType.{
  EventType, event_type, byte_of_event_type, event_type_of_byte,
  event_type_of_byte-byte_of_event_type,
}
use syntra.Proto.Validate.{validate_file_position}
use syntra.Proto.Encode.{payload, encode}
use syntra.Proto.Encode
use syntra.Proto.Decode.{decode_body, decode_arm, check_rest, decode}
use syntra.Proto.Decode
use Basic.{IsU32, IsU64, >>-eq-ok, >>=-eq-ok, checked, fail_if-eq-ok}
use Pointer.{IsInput}
use Clipboard.{sent_file_id}
use Manifest.{IsEntries}
use History.{IsBoundary}

-- The part of a target that fits on the wire.
abbrev pub cut_target : Bytes → Bytes
cut_target target = take (min (length target) 128) target

-- Every field holds a value of its Rust type.
abbrev pub IsEvent : ProtoEvent → Type 0
IsEvent (ProtoEvent.enter p) = Unit
IsEvent (ProtoEvent.leave n) = IsU32 n
IsEvent (ProtoEvent.input_capabilities n) = IsU32 n
IsEvent (ProtoEvent.leave_at n) = IsU32 n
IsEvent (ProtoEvent.handoff t s) = is_utf8 t ≡ true
IsEvent (ProtoEvent.enter_via s t) = is_utf8 t ≡ true
IsEvent (ProtoEvent.enter_at s n) = IsU32 n
IsEvent (ProtoEvent.ack n) = IsU32 n
IsEvent ProtoEvent.ping = Unit
IsEvent (ProtoEvent.pong b) = Unit
IsEvent (ProtoEvent.hello c) = length c ≡ 8
IsEvent ProtoEvent.profile_changed = Unit
IsEvent (ProtoEvent.profile_request r) = IsU64 r
IsEvent (ProtoEvent.profile_start r w t l c n) =
    IsU64 r × IsU32 w × IsU32 t × IsU32 l × IsU32 c × (is_utf8 n ≡ true)
IsEvent (ProtoEvent.profile_chunk r i b) = IsU64 r × IsU32 i
IsEvent (ProtoEvent.clipboard_start t l c) = IsU64 t × IsU32 l × IsU32 c
IsEvent (ProtoEvent.clipboard_image_start t w y l c) =
    IsU64 t × IsU32 w × IsU32 y × IsU32 l × IsU32 c
IsEvent (ProtoEvent.clipboard_chunk t i b) = IsU64 t × IsU32 i
IsEvent (ProtoEvent.clipboard_capabilities c) = Unit
IsEvent (ProtoEvent.clipboard_manifest t es) = IsU64 t × IsEntries es
IsEvent (ProtoEvent.clipboard_file_request t f r o l) =
    IsU64 t × IsU64 f × IsU64 r × IsU64 o × IsU64 l
IsEvent (ProtoEvent.clipboard_file_chunk t f r o b) = IsU64 t × IsU64 f × IsU64 r × IsU64 o
IsEvent (ProtoEvent.clipboard_file_complete t f r n g) =
    IsU64 t × IsU64 f × IsU64 r × IsU64 n × (length g ≡ 32)
IsEvent (ProtoEvent.clipboard_transfer_cancel t f r) = IsU64 t × FitsU64 f
IsEvent (ProtoEvent.clipboard_transfer_progress t f c n) = IsU64 t × IsU64 f × IsU64 c × IsU64 n
IsEvent (ProtoEvent.history_sync_request r o) = IsU64 r × IsU64 o
IsEvent (ProtoEvent.history_record_start r i l c) = IsU64 r × IsU64 i × IsU32 l × IsU32 c
IsEvent (ProtoEvent.history_record_chunk r i x b) = IsU64 r × IsU64 i × IsU32 x
IsEvent (ProtoEvent.manual_file_offer t n z) = IsU64 t × (is_utf8 n ≡ true) × IsU64 z
IsEvent (ProtoEvent.manual_file_decision t q) = IsU64 t
IsEvent (ProtoEvent.manual_file_request t o l) = IsU64 t × IsU64 o × IsU32 l
IsEvent (ProtoEvent.manual_file_chunk t o b) = IsU64 t × IsU64 o
IsEvent (ProtoEvent.manual_file_complete t g) = IsU64 t × (length g ≡ 32)
IsEvent (ProtoEvent.manual_file_result t b e) = IsU64 t × IsText e
IsEvent (ProtoEvent.manual_file_cancel t) = IsU64 t
IsEvent (ProtoEvent.history_sync_page_end r o) = IsU64 r × FitsU64 o
IsEvent (ProtoEvent.history_clear_boundary_request o) = length o ≡ 16
IsEvent (ProtoEvent.history_clear_boundary o b) = (length o ≡ 16) × IsBoundary b
IsEvent (ProtoEvent.history_clear_apply o b) = (length o ≡ 16) × IsBoundary b
IsEvent (ProtoEvent.history_clear_ack o n e) = (length o ≡ 16) × IsU64 n × IsText e
IsEvent (ProtoEvent.input e) = IsInput e

-- What the sender does not test and the receiver does.
abbrev pub IsDeliverable : ProtoEvent → Type 0
IsDeliverable (ProtoEvent.leave_at n) = Decode.Pointer.is_finite n ≡ true
IsDeliverable (ProtoEvent.enter_at s n) = Decode.Pointer.is_finite n ≡ true
IsDeliverable (ProtoEvent.handoff t s) = is_utf8 (cut_target t) ≡ true
IsDeliverable (ProtoEvent.enter_via s t) = is_utf8 (cut_target t) ≡ true
IsDeliverable (ProtoEvent.clipboard_transfer_progress t f c n) =
    ((f == 0) ≡ false) × (validate_file_position n ≡ ok tt)
IsDeliverable _ = Unit

-- The event that arrives: the position is brought into the unit interval, a long target is cut, and
-- the file id zero stands for none. All else arrives as it was sent.
unfoldable pub received : ProtoEvent → ProtoEvent
received (ProtoEvent.leave_at n) = ProtoEvent.leave_at (Decode.Pointer.clamp_unit n)
received (ProtoEvent.enter_at s n) = ProtoEvent.enter_at s (Decode.Pointer.clamp_unit n)
received (ProtoEvent.handoff t s) = ProtoEvent.handoff (cut_target t) s
received (ProtoEvent.enter_via s t) = ProtoEvent.enter_via s (cut_target t)
received (ProtoEvent.clipboard_transfer_cancel t f r) =
    ProtoEvent.clipboard_transfer_cancel t (sent_file_id f) r
received e = e

input-round_trip :
    (i : InputEvent)
    → IsInput i
    → decode_body (event_type (ProtoEvent.input i)) (Encode.Pointer.input i)
      ≡ ok (ProtoEvent.input i, [])
unfolding decode_body event_type
input-round_trip (InputEvent.pointer (PointerEvent.motion t x y)) v =
    Pointer.motion-round_trip t v.0 x y v.1 v.2
input-round_trip (InputEvent.pointer (PointerEvent.button t b s)) v =
    Pointer.button-round_trip t v.0 b s v.1 v.2
input-round_trip (InputEvent.pointer (PointerEvent.axis t a x)) v =
    Pointer.axis-round_trip t v.0 a x v.2
input-round_trip (InputEvent.pointer (PointerEvent.axis_discrete120 a x)) v =
    Pointer.axis_value120-round_trip a x v.1
input-round_trip (InputEvent.keyboard (KeyboardEvent.key t k s)) v =
    Pointer.key-round_trip t v.0 k s v.1
input-round_trip (InputEvent.keyboard (KeyboardEvent.modifiers d l k g)) v =
    Pointer.modifiers-round_trip d l k g v.0 v.1 v.2 v.3

body-round_trip :
    (buf : Bytes) (event : ProtoEvent) (out : Bytes)
    → IsEvent event
    → IsDeliverable event
    → payload buf event ≡ ok out
    → decode_body (event_type event) out ≡ ok (received event, [])
unfolding payload decode_body event_type received pure
body-round_trip buf (ProtoEvent.enter p) out v d h =
    rw (← ok-injective h) (Pointer.enter-round_trip p)
body-round_trip buf (ProtoEvent.leave n) out v d h =
    rw (← ok-injective h) (Pointer.serial-round_trip ProtoEvent.leave n v)
body-round_trip buf (ProtoEvent.input_capabilities n) out v d h =
    rw (← ok-injective h) (Pointer.serial-round_trip ProtoEvent.input_capabilities n v)
body-round_trip buf (ProtoEvent.leave_at n) out v d h =
    rw (← ok-injective h) (Pointer.leave_at-round_trip n v d)
body-round_trip buf (ProtoEvent.handoff t s) out v d h =
    rw (← ok-injective h) (Pointer.target-round_trip (λ side x. ProtoEvent.handoff x side) s t d)
body-round_trip buf (ProtoEvent.enter_via s t) out v d h =
    rw (← ok-injective h) (Pointer.target-round_trip ProtoEvent.enter_via s t d)
body-round_trip buf (ProtoEvent.enter_at s n) out v d h =
    rw (← ok-injective h) (Pointer.enter_at-round_trip n v d s)
body-round_trip buf (ProtoEvent.ack n) out v d h =
    rw (← ok-injective h) (Pointer.serial-round_trip ProtoEvent.ack n v)
body-round_trip buf ProtoEvent.ping out v d h = rw (← ok-injective h) (refl)
body-round_trip buf (ProtoEvent.pong b) out v d h =
    rw (← ok-injective h) (Pointer.pong-round_trip b)
body-round_trip buf (ProtoEvent.hello c) out v d h =
    rw (← ok-injective h) (Pointer.hello-round_trip c v)
body-round_trip buf ProtoEvent.profile_changed out v d h = rw (← ok-injective h) (refl)
body-round_trip buf (ProtoEvent.profile_request r) out v d h = Profile.request-round_trip r out v h
body-round_trip buf (ProtoEvent.profile_start r w t l c n) out v d h =
    Profile.start-round_trip r w t l c n out v.0 v.1 v.2 v.3 v.4 v.5 h
body-round_trip buf (ProtoEvent.profile_chunk r i b) out v d h =
    Profile.chunk-round_trip r i b out v.0 v.1 h
body-round_trip buf (ProtoEvent.clipboard_start t l c) out v d h =
    Clipboard.start-round_trip t l c out v.0 v.1 v.2 h
body-round_trip buf (ProtoEvent.clipboard_image_start t w y l c) out v d h =
    Clipboard.image_start-round_trip t w y l c out v.0 v.1 v.2 v.3 v.4 h
body-round_trip buf (ProtoEvent.clipboard_chunk t i b) out v d h =
    Clipboard.chunk-round_trip t i b out v.0 v.1 h
body-round_trip buf (ProtoEvent.clipboard_capabilities c) out v d h =
    rw (← ok-injective h) (Clipboard.capabilities-round_trip c)
body-round_trip buf (ProtoEvent.clipboard_manifest t es) out v d h =
    Manifest.manifest-round_trip buf t es out v.0 v.1 h
body-round_trip buf (ProtoEvent.clipboard_file_request t f r o l) out v d h =
    Clipboard.file_request-round_trip t f r o l out v.0 v.1 v.2 v.3 v.4 h
body-round_trip buf (ProtoEvent.clipboard_file_chunk t f r o b) out v d h =
    Clipboard.file_chunk-round_trip t f r o b out v.0 v.1 v.2 v.3 h
body-round_trip buf (ProtoEvent.clipboard_file_complete t f r n g) out v d h =
    Clipboard.file_complete-round_trip t f r n g out v.0 v.1 v.2 v.3 v.4 h
body-round_trip buf (ProtoEvent.clipboard_transfer_cancel t f r) out v d h =
    rw (← ok-injective h) (Clipboard.transfer_cancel-round_trip t f r v.0 v.1)
body-round_trip buf (ProtoEvent.clipboard_transfer_progress t f c n) out v d h =
    Clipboard.transfer_progress-round_trip t f c n out v.0 v.1 v.2 v.3 d.0 d.1 h
body-round_trip buf (ProtoEvent.history_sync_request r o) out v d h =
    rw (← ok-injective h) (History.sync_request-round_trip r o v.0 v.1)
body-round_trip buf (ProtoEvent.history_record_start r i l c) out v d h =
    History.record_start-round_trip r i l c out v.0 v.1 v.2 v.3 h
body-round_trip buf (ProtoEvent.history_record_chunk r i x b) out v d h =
    History.record_chunk-round_trip r i x b out v.0 v.1 v.2 h
body-round_trip buf (ProtoEvent.manual_file_offer t n z) out v d h =
    Manual.offer-round_trip t n z out v.0 v.1 v.2 h
body-round_trip buf (ProtoEvent.manual_file_decision t q) out v d h =
    Manual.decision-round_trip t q out v h
body-round_trip buf (ProtoEvent.manual_file_request t o l) out v d h =
    Manual.request-round_trip t o l out v.0 v.1 v.2 h
body-round_trip buf (ProtoEvent.manual_file_chunk t o b) out v d h =
    Manual.chunk-round_trip t o b out v.0 v.1 h
body-round_trip buf (ProtoEvent.manual_file_complete t g) out v d h =
    Manual.complete-round_trip t g out v.0 v.1 h
body-round_trip buf (ProtoEvent.manual_file_result t b e) out v d h =
    Manual.result-round_trip t b e out v.0 v.1 h
body-round_trip buf (ProtoEvent.manual_file_cancel t) out v d h = Manual.cancel-round_trip t out v h
body-round_trip buf (ProtoEvent.history_sync_page_end r o) out v d h =
    rw (← ok-injective h) (History.sync_page_end-round_trip r o v.0 v.1)
body-round_trip buf (ProtoEvent.history_clear_boundary_request o) out v d h =
    rw (← ok-injective h) (History.boundary_request-round_trip o v)
body-round_trip buf (ProtoEvent.history_clear_boundary o b) out v d h =
    History.clear_boundary-round_trip ProtoEvent.history_clear_boundary buf o b out v.0 v.1 h
body-round_trip buf (ProtoEvent.history_clear_apply o b) out v d h =
    History.clear_boundary-round_trip ProtoEvent.history_clear_apply buf o b out v.0 v.1 h
body-round_trip buf (ProtoEvent.history_clear_ack o n e) out v d h =
    History.clear_ack-round_trip o n e out v.0 v.1 v.2 h
body-round_trip buf (ProtoEvent.input i) out v d h = rw (← ok-injective h) (input-round_trip i v)

decode_arm-byte : (t : EventType) → decode_arm (byte_of_event_type t) ≡ decode_body t
unfolding decode_arm
decode_arm-byte t = rw (event_type_of_byte-byte_of_event_type t, decode_arm)

-- A datagram within the limit whose first byte is an event id goes to that event's arm.
decode-cons :
    (t : EventType) (out : Bytes) (event : ProtoEvent)
    → ltb 16384 (length (byte_of_event_type t ∷ out)) ≡ false
    → decode_body t out ≡ ok (event, [])
    → decode (byte_of_event_type t ∷ out) ≡ ok event
unfolding decode
decode-cons t out event fits e =
    rw (fits, get_u8-put out (byte_of_event_type t), decode_arm-byte t, e)

-- An event whose fields hold values of their types, and that passes the tests which only the
-- receiver makes, is read back from the bytes that it is encoded as: with its position clamped, its
-- overlong target cut and its file id zero dropped, and otherwise unchanged.
pub decode-encode :
    (event : ProtoEvent) (bytes : Bytes)
    → IsEvent event
    → IsDeliverable event
    → encode event ≡ ok bytes
    → decode bytes ≡ ok (received event)
unfolding encode
decode-encode event bytes v d h =
    let buf = byte_of_event_type (event_type event) ∷ [] in
    let (body, e, h') = >>=-eq-ok (payload buf event) _ h in
    let (fits, q) = checked (fail_if (ltb 16384 (length (buf ++ body))) _) _ h' in
    subst (λ b. decode b ≡ ok (received event)) q
      (decode-cons (event_type event) body (received event) (fail_if-eq-ok _ _ fits)
        (body-round_trip buf event body v d e))
