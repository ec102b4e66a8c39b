-- ===== src/Proto/EventType.antt =====
-- crates/syntra-proto/src/lib.rs: `EventType`, the first byte of every datagram.
use syntra.Prelude.{ℕ, ◌≡◌, refl, Option, some, List, [], ◌∷◌, get_elem?}
use syntra.Proto.Event.{ProtoEvent, InputEvent, PointerEvent, KeyboardEvent}

pub data EventType : Type 0 where
  pointer_motion pointer_button pointer_axis pointer_axis_value120 : EventType
  keyboard_key keyboard_modifiers : EventType
  ping pong enter leave ack hello : EventType
  clipboard_start clipboard_chunk clipboard_image_start clipboard_capabilities : EventType
  clipboard_manifest clipboard_file_request clipboard_file_chunk : EventType
  clipboard_file_complete clipboard_transfer_cancel clipboard_transfer_progress : EventType
  history_sync_request history_record_start history_record_chunk history_sync_page_end : EventType
  history_clear_boundary_request history_clear_boundary history_clear_apply : EventType
  history_clear_ack : EventType
  profile_start profile_chunk profile_request profile_changed : EventType
  manual_file_offer manual_file_decision manual_file_request manual_file_chunk : EventType
  manual_file_complete manual_file_result manual_file_cancel : EventType
  handoff enter_via enter_at input_capabilities leave_at : EventType

-- In the order of the declaration: a discriminant is a position in this list.
abbrev event_types : List EventType
event_types =
    pointer_motion ∷ pointer_button ∷ pointer_axis ∷ pointer_axis_value120 ∷ keyboard_key
    ∷ keyboard_modifiers ∷ ping ∷ pong ∷ enter ∷ leave ∷ ack ∷ hello ∷ clipboard_start
    ∷ clipboard_chunk ∷ clipboard_image_start ∷ clipboard_capabilities ∷ clipboard_manifest
    ∷ clipboard_file_request ∷ clipboard_file_chunk ∷ clipboard_file_complete
    ∷ clipboard_transfer_cancel ∷ clipboard_transfer_progress ∷ history_sync_request
    ∷ history_record_start ∷ history_record_chunk ∷ history_sync_page_end
    ∷ history_clear_boundary_request ∷ history_clear_boundary ∷ history_clear_apply
    ∷ history_clear_ack ∷ profile_start ∷ profile_chunk ∷ profile_request ∷ profile_changed
    ∷ manual_file_offer ∷ manual_file_decision ∷ manual_file_request ∷ manual_file_chunk
    ∷ manual_file_complete ∷ manual_file_result ∷ manual_file_cancel ∷ handoff ∷ enter_via
    ∷ enter_at ∷ input_capabilities ∷ leave_at ∷ []

-- `EventType::try_from(byte)`
unfoldable pub event_type_of_byte : ℕ → Option EventType
event_type_of_byte b = get_elem? event_types b

-- `event_type as u8`
unfoldable pub byte_of_event_type : EventType → ℕ
byte_of_event_type pointer_motion = 0
byte_of_event_type pointer_button = 1
byte_of_event_type pointer_axis = 2
byte_of_event_type pointer_axis_value120 = 3
byte_of_event_type keyboard_key = 4
byte_of_event_type keyboard_modifiers = 5
byte_of_event_type ping = 6
byte_of_event_type pong = 7
byte_of_event_type enter = 8
byte_of_event_type leave = 9
byte_of_event_type ack = 10
byte_of_event_type hello = 11
byte_of_event_type clipboard_start = 12
byte_of_event_type clipboard_chunk = 13
byte_of_event_type clipboard_image_start = 14
byte_of_event_type clipboard_capabilities = 15
byte_of_event_type clipboard_manifest = 16
byte_of_event_type clipboard_file_request = 17
byte_of_event_type clipboard_file_chunk = 18
byte_of_event_type clipboard_file_complete = 19
byte_of_event_type clipboard_transfer_cancel = 20
byte_of_event_type clipboard_transfer_progress = 21
byte_of_event_type history_sync_request = 22
byte_of_event_type history_record_start = 23
byte_of_event_type history_record_chunk = 24
byte_of_event_type history_sync_page_end = 25
byte_of_event_type history_clear_boundary_request = 26
byte_of_event_type history_clear_boundary = 27
byte_of_event_type history_clear_apply = 28
byte_of_event_type history_clear_ack = 29
byte_of_event_type profile_start = 30
byte_of_event_type profile_chunk = 31
byte_of_event_type profile_request = 32
byte_of_event_type profile_changed = 33
byte_of_event_type manual_file_offer = 34
byte_of_event_type manual_file_decision = 35
byte_of_event_type manual_file_request = 36
byte_of_event_type manual_file_chunk = 37
byte_of_event_type manual_file_complete = 38
byte_of_event_type manual_file_result = 39
byte_of_event_type manual_file_cancel = 40
byte_of_event_type handoff = 41
byte_of_event_type enter_via = 42
byte_of_event_type enter_at = 43
byte_of_event_type input_capabilities = 44
byte_of_event_type leave_at = 45

-- `ProtoEvent::event_type`
unfoldable pub event_type : ProtoEvent → EventType
event_type (ProtoEvent.input (InputEvent.pointer (PointerEvent.motion t x y))) = pointer_motion
event_type (ProtoEvent.input (InputEvent.pointer (PointerEvent.button t b s))) = pointer_button
event_type (ProtoEvent.input (InputEvent.pointer (PointerEvent.axis t a v))) = pointer_axis
event_type (ProtoEvent.input (InputEvent.pointer (PointerEvent.axis_discrete120 a v))) =
    pointer_axis_value120
event_type (ProtoEvent.input (InputEvent.keyboard (KeyboardEvent.key t k s))) = keyboard_key
event_type (ProtoEvent.input (InputEvent.keyboard (KeyboardEvent.modifiers d l k g))) =
    keyboard_modifiers
event_type (ProtoEvent.enter a) = enter
event_type (ProtoEvent.leave a) = leave
event_type (ProtoEvent.input_capabilities a) = input_capabilities
event_type (ProtoEvent.leave_at a) = leave_at
event_type (ProtoEvent.handoff a b) = handoff
event_type (ProtoEvent.enter_via a b) = enter_via
event_type (ProtoEvent.enter_at a b) = enter_at
event_type (ProtoEvent.ack a) = ack
event_type ProtoEvent.ping = ping
event_type (ProtoEvent.pong a) = pong
event_type (ProtoEvent.hello a) = hello
event_type ProtoEvent.profile_changed = profile_changed
event_type (ProtoEvent.profile_request a) = profile_request
event_type (ProtoEvent.profile_start a b c d e f) = profile_start
event_type (ProtoEvent.profile_chunk a b c) = profile_chunk
event_type (ProtoEvent.clipboard_start a b c) = clipboard_start
event_type (ProtoEvent.clipboard_image_start a b c d e) = clipboard_image_start
event_type (ProtoEvent.clipboard_chunk a b c) = clipboard_chunk
event_type (ProtoEvent.clipboard_capabilities a) = clipboard_capabilities
event_type (ProtoEvent.clipboard_manifest a b) = clipboard_manifest
event_type (ProtoEvent.clipboard_file_request a b c d e) = clipboard_file_request
event_type (ProtoEvent.clipboard_file_chunk a b c d e) = clipboard_file_chunk
event_type (ProtoEvent.clipboard_file_complete a b c d e) = clipboard_file_complete
event_type (ProtoEvent.clipboard_transfer_cancel a b c) = clipboard_transfer_cancel
event_type (ProtoEvent.clipboard_transfer_progress a b c d) = clipboard_transfer_progress
event_type (ProtoEvent.history_sync_request a b) = history_sync_request
event_type (ProtoEvent.history_record_start a b c d) = history_record_start
event_type (ProtoEvent.history_record_chunk a b c d) = history_record_chunk
event_type (ProtoEvent.manual_file_offer a b c) = manual_file_offer
event_type (ProtoEvent.manual_file_decision a b) = manual_file_decision
event_type (ProtoEvent.manual_file_request a b c) = manual_file_request
event_type (ProtoEvent.manual_file_chunk a b c) = manual_file_chunk
event_type (ProtoEvent.manual_file_complete a b) = manual_file_complete
event_type (ProtoEvent.manual_file_result a b c) = manual_file_result
event_type (ProtoEvent.manual_file_cancel a) = manual_file_cancel
event_type (ProtoEvent.history_sync_page_end a b) = history_sync_page_end
event_type (ProtoEvent.history_clear_boundary_request a) = history_clear_boundary_request
event_type (ProtoEvent.history_clear_boundary a b) = history_clear_boundary
event_type (ProtoEvent.history_clear_apply a b) = history_clear_apply
event_type (ProtoEvent.history_clear_ack a b c) = history_clear_ack

-- A byte that an event type is written as is read as that event type.
pub event_type_of_byte-byte_of_event_type :
    (t : EventType) → event_type_of_byte (byte_of_event_type t) ≡ some t
unfolding event_type_of_byte byte_of_event_type
event_type_of_byte-byte_of_event_type pointer_motion = refl
event_type_of_byte-byte_of_event_type pointer_button = refl
event_type_of_byte-byte_of_event_type pointer_axis = refl
event_type_of_byte-byte_of_event_type pointer_axis_value120 = refl
event_type_of_byte-byte_of_event_type keyboard_key = refl
event_type_of_byte-byte_of_event_type keyboard_modifiers = refl
event_type_of_byte-byte_of_event_type ping = refl
event_type_of_byte-byte_of_event_type pong = refl
event_type_of_byte-byte_of_event_type enter = refl
event_type_of_byte-byte_of_event_type leave = refl
event_type_of_byte-byte_of_event_type ack = refl
event_type_of_byte-byte_of_event_type hello = refl
event_type_of_byte-byte_of_event_type clipboard_start = refl
event_type_of_byte-byte_of_event_type clipboard_chunk = refl
event_type_of_byte-byte_of_event_type clipboard_image_start = refl
event_type_of_byte-byte_of_event_type clipboard_capabilities = refl
event_type_of_byte-byte_of_event_type clipboard_manifest = refl
event_type_of_byte-byte_of_event_type clipboard_file_request = refl
event_type_of_byte-byte_of_event_type clipboard_file_chunk = refl
event_type_of_byte-byte_of_event_type clipboard_file_complete = refl
event_type_of_byte-byte_of_event_type clipboard_transfer_cancel = refl
event_type_of_byte-byte_of_event_type clipboard_transfer_progress = refl
event_type_of_byte-byte_of_event_type history_sync_request = refl
event_type_of_byte-byte_of_event_type history_record_start = refl
event_type_of_byte-byte_of_event_type history_record_chunk = refl
event_type_of_byte-byte_of_event_type history_sync_page_end = refl
event_type_of_byte-byte_of_event_type history_clear_boundary_request = refl
event_type_of_byte-byte_of_event_type history_clear_boundary = refl
event_type_of_byte-byte_of_event_type history_clear_apply = refl
event_type_of_byte-byte_of_event_type history_clear_ack = refl
event_type_of_byte-byte_of_event_type profile_start = refl
event_type_of_byte-byte_of_event_type profile_chunk = refl
event_type_of_byte-byte_of_event_type profile_request = refl
event_type_of_byte-byte_of_event_type profile_changed = refl
event_type_of_byte-byte_of_event_type manual_file_offer = refl
event_type_of_byte-byte_of_event_type manual_file_decision = refl
event_type_of_byte-byte_of_event_type manual_file_request = refl
event_type_of_byte-byte_of_event_type manual_file_chunk = refl
event_type_of_byte-byte_of_event_type manual_file_complete = refl
event_type_of_byte-byte_of_event_type manual_file_result = refl
event_type_of_byte-byte_of_event_type manual_file_cancel = refl
event_type_of_byte-byte_of_event_type handoff = refl
event_type_of_byte-byte_of_event_type enter_via = refl
event_type_of_byte-byte_of_event_type enter_at = refl
event_type_of_byte-byte_of_event_type input_capabilities = refl
event_type_of_byte-byte_of_event_type leave_at = refl
