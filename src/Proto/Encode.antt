-- ===== src/Proto/Encode.antt =====
-- crates/syntra-proto/src/lib.rs: `ProtoEvent::encode`.
pub mod Pointer
pub mod Profile
pub mod Clipboard
pub mod Manifest
pub mod History
pub mod Manual
use syntra.Prelude.{
  ℕ, Bool, true, false, Option, none, some, List, [], ◌∷◌, ◌++◌, concat, ltb, length,
}
use syntra.Proto.Error.{Bytes, Result, ok, err, too_large, fail_if, ◌>>=◌, ◌>>◌}
use syntra.Proto.Limits.{max_datagram_size}
use syntra.Proto.Event.{ProtoEvent}
use syntra.Proto.EventType.{event_type, byte_of_event_type}

-- What the arms of the match append after the first byte of `buf`.
unfoldable pub payload : Bytes → ProtoEvent → Result Bytes
payload buf (ProtoEvent.manual_file_offer a b c) = Manual.offer a b c
payload buf (ProtoEvent.manual_file_decision a b) = Manual.decision a b
payload buf (ProtoEvent.manual_file_request a b c) = Manual.request a b c
payload buf (ProtoEvent.manual_file_chunk a b c) = Manual.chunk a b c
payload buf (ProtoEvent.manual_file_complete a b) = Manual.complete a b
payload buf (ProtoEvent.manual_file_result a b c) = Manual.result a b c
payload buf (ProtoEvent.manual_file_cancel a) = Manual.cancel a
payload buf (ProtoEvent.input e) = ok (Pointer.input e)
payload buf ProtoEvent.ping = ok []
payload buf ProtoEvent.profile_changed = ok []
payload buf (ProtoEvent.pong a) = ok (Pointer.pong a)
payload buf (ProtoEvent.enter a) = ok (Pointer.enter a)
payload buf (ProtoEvent.leave a) = ok (Pointer.serial a)
payload buf (ProtoEvent.ack a) = ok (Pointer.serial a)
payload buf (ProtoEvent.input_capabilities a) = ok (Pointer.serial a)
payload buf (ProtoEvent.leave_at a) = ok (Pointer.serial a)
payload buf (ProtoEvent.enter_at a b) = ok (Pointer.enter_at a b)
payload buf (ProtoEvent.handoff a b) = ok (Pointer.target b a)
payload buf (ProtoEvent.enter_via a b) = ok (Pointer.target a b)
payload buf (ProtoEvent.hello a) = ok (concat (a ∷ []))
payload buf (ProtoEvent.profile_request a) = Profile.request a
payload buf (ProtoEvent.profile_start a b c d e f) = Profile.start a b c d e f
payload buf (ProtoEvent.profile_chunk a b c) = Profile.chunk a b c
payload buf (ProtoEvent.clipboard_start a b c) = Clipboard.start a b c
payload buf (ProtoEvent.clipboard_image_start a b c d e) = Clipboard.image_start a b c d e
payload buf (ProtoEvent.clipboard_chunk a b c) = Clipboard.chunk a b c
payload buf (ProtoEvent.clipboard_capabilities a) = ok (Clipboard.capabilities a)
payload buf (ProtoEvent.clipboard_manifest a b) = Manifest.encode_manifest buf a b
payload buf (ProtoEvent.clipboard_file_request a b c d e) = Clipboard.file_request a b c d e
payload buf (ProtoEvent.clipboard_file_chunk a b c d e) = Clipboard.file_chunk a b c d e
payload buf (ProtoEvent.clipboard_file_complete a b c d e) = Clipboard.file_complete a b c d e
payload buf (ProtoEvent.clipboard_transfer_cancel a b c) = ok (Clipboard.transfer_cancel a b c)
payload buf (ProtoEvent.clipboard_transfer_progress a b c d) = Clipboard.transfer_progress a b c d
payload buf (ProtoEvent.history_sync_request a b) = ok (History.sync_request a b)
payload buf (ProtoEvent.history_record_start a b c d) = History.record_start a b c d
payload buf (ProtoEvent.history_record_chunk a b c d) = History.record_chunk a b c d
payload buf (ProtoEvent.history_sync_page_end a b) = ok (History.sync_page_end a b)
payload buf (ProtoEvent.history_clear_boundary_request a) = ok (concat (a ∷ []))
payload buf (ProtoEvent.history_clear_boundary a b) = History.clear_boundary buf a b
payload buf (ProtoEvent.history_clear_apply a b) = History.clear_boundary buf a b
payload buf (ProtoEvent.history_clear_ack a b c) = History.clear_ack a b c

unfoldable pub encode : ProtoEvent → Result Bytes
encode event = do
  let buf = byte_of_event_type (event_type event) ∷ []
  body ← payload buf event
  let buf' = buf ++ body
  fail_if (ltb max_datagram_size (length buf')) (too_large (length buf') max_datagram_size)
  ok buf'
