-- ===== src/Proto/Decode.antt =====
-- crates/syntra-proto/src/lib.rs: `ProtoEvent::decode`.
pub mod Pointer
pub mod Profile
pub mod Clipboard
pub mod Manifest
pub mod History
pub mod Manual
use syntra.Prelude.{
  ℕ, Bool, true, false, not, Option, none, some, List, [], ◌∷◌, ltb, if◌then◌else◌, length,
  is_empty,
}
use syntra.Proto.Error.{
  Bytes, Result, ok, err, too_large, trailing_bytes, invalid_event_id, fail_if,
}
use syntra.Proto.Error
use syntra.Proto.Limits.{max_datagram_size}
use syntra.Proto.Wire.{Decoder, get_u8, pure, lift, ◌>>=◌, ◌>>◌}
use syntra.Proto.Event.{ProtoEvent}
use syntra.Proto.EventType.{EventType, event_type_of_byte}

-- The arms of the match. The two that return at once, `ClipboardChunk` and `HistoryRecordChunk`,
-- leave nothing unread.
unfoldable pub decode_body : EventType → Decoder ProtoEvent
decode_body EventType.pointer_motion = Pointer.motion
decode_body EventType.pointer_button = Pointer.button
decode_body EventType.pointer_axis = Pointer.axis
decode_body EventType.pointer_axis_value120 = Pointer.axis_value120
decode_body EventType.keyboard_key = Pointer.key
decode_body EventType.keyboard_modifiers = Pointer.modifiers
decode_body EventType.ping = pure ProtoEvent.ping
decode_body EventType.pong = Pointer.pong
decode_body EventType.enter = Pointer.enter
decode_body EventType.leave = Pointer.serial ProtoEvent.leave
decode_body EventType.ack = Pointer.serial ProtoEvent.ack
decode_body EventType.hello = Pointer.hello
decode_body EventType.clipboard_start = Clipboard.start
decode_body EventType.clipboard_chunk = Clipboard.chunk
decode_body EventType.clipboard_image_start = Clipboard.image_start
decode_body EventType.clipboard_capabilities = Clipboard.capabilities
decode_body EventType.clipboard_manifest = Manifest.decode_manifest
decode_body EventType.clipboard_file_request = Clipboard.file_request
decode_body EventType.clipboard_file_chunk = Clipboard.file_chunk
decode_body EventType.clipboard_file_complete = Clipboard.file_complete
decode_body EventType.clipboard_transfer_cancel = Clipboard.transfer_cancel
decode_body EventType.clipboard_transfer_progress = Clipboard.transfer_progress
decode_body EventType.history_sync_request = History.sync_request
decode_body EventType.history_record_start = History.record_start
decode_body EventType.history_record_chunk = History.record_chunk
decode_body EventType.history_sync_page_end = History.sync_page_end
decode_body EventType.history_clear_boundary_request = History.boundary_request
decode_body EventType.history_clear_boundary =
    History.clear_boundary ProtoEvent.history_clear_boundary
decode_body EventType.history_clear_apply = History.clear_boundary ProtoEvent.history_clear_apply
decode_body EventType.history_clear_ack = History.clear_ack
decode_body EventType.profile_start = Profile.start
decode_body EventType.profile_chunk = Profile.chunk
decode_body EventType.profile_request = Profile.request
decode_body EventType.profile_changed = pure ProtoEvent.profile_changed
decode_body EventType.manual_file_offer = Manual.offer
decode_body EventType.manual_file_decision = Manual.decision
decode_body EventType.manual_file_request = Manual.request
decode_body EventType.manual_file_chunk = Manual.chunk
decode_body EventType.manual_file_complete = Manual.complete
decode_body EventType.manual_file_result = Manual.result
decode_body EventType.manual_file_cancel = Manual.cancel
decode_body EventType.handoff = Pointer.target (λ side t. ProtoEvent.handoff t side)
decode_body EventType.enter_via = Pointer.target ProtoEvent.enter_via
decode_body EventType.enter_at = Pointer.enter_at
decode_body EventType.input_capabilities = Pointer.serial ProtoEvent.input_capabilities
decode_body EventType.leave_at = Pointer.leave_at

-- `EventType::try_from(id)?`, and the match on it.
unfoldable pub decode_arm : ℕ → Decoder ProtoEvent
decode_arm id = elim (event_type_of_byte id) [
  | none ↦ lift (err (invalid_event_id id))
  | some t ↦ decode_body t
]

-- `if !buf.is_empty() { return Err(..) } Ok(event)`
unfoldable pub check_rest : Result (ProtoEvent × Bytes) → Result ProtoEvent
check_rest (err e) = err e
check_rest (ok (event, [])) = ok event
check_rest (ok (event, b ∷ bs)) = err (trailing_bytes (length (b ∷ bs)))

unfoldable pub decode : Bytes → Result ProtoEvent
unfolding ◌>>=◌ check_rest
decode buf =
    if ltb max_datagram_size (length buf)
    then err (too_large (length buf) max_datagram_size)
    else check_rest ((do id ← get_u8; decode_arm id) buf)
