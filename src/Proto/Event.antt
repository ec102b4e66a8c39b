-- ===== src/Proto/Event.antt =====
-- crates/syntra-proto/src/lib.rs: the message set, `ProtoEvent`, and its event ids, `EventType`; with
-- the input events of crates/syntra-input-event/src/lib.rs. A float is the number whose binary
-- digits are its bits.
use syntra.Prelude.{ℕ, Bool, Option, List}
use syntra.Prelude.Int.{ℤ}
use syntra.Proto.Error.{Bytes}

pub data ManualDecision : Type 0 where
  pending accepted declined : ManualDecision

pub data Position : Type 0 where
  left right top bottom : Position

pub data ClipboardEntryKind : Type 0 where
  file directory : ClipboardEntryKind

pub record ClipboardManifestEntry : Type 0 where
  pub file_id : ℕ
  pub path : Bytes
  pub kind : ClipboardEntryKind
  pub size : ℕ

pub record ClipboardCapabilities : Type 0 where
  pub text : Bool
  pub image : Bool
  pub files : Bool

pub data ClipboardCancelReason : Type 0 where
  user io_error protocol : ClipboardCancelReason

pub data PointerEvent : Type 0 where
  motion : (time dx dy : ℕ) → PointerEvent
  button : (time button state : ℕ) → PointerEvent
  axis : (time axis value : ℕ) → PointerEvent
  axis_discrete120 : (axis : ℕ) (value : ℤ) → PointerEvent

pub data KeyboardEvent : Type 0 where
  key : (time key state : ℕ) → KeyboardEvent
  modifiers : (depressed latched locked group : ℕ) → KeyboardEvent

pub data InputEvent : Type 0 where
  pointer : PointerEvent → InputEvent
  keyboard : KeyboardEvent → InputEvent

-- `(device id, sequence)` pairs.
abbrev pub Boundary : Type 0
Boundary = List (Bytes × ℕ)

pub data ProtoEvent : Type 0 where
  enter : Position → ProtoEvent
  leave : (serial : ℕ) → ProtoEvent
  input_capabilities : (bits : ℕ) → ProtoEvent
  leave_at : (along : ℕ) → ProtoEvent
  handoff : (target : Bytes) (side : Position) → ProtoEvent
  enter_via : (side : Position) (via : Bytes) → ProtoEvent
  enter_at : (side : Position) (along : ℕ) → ProtoEvent
  ack : (serial : ℕ) → ProtoEvent
  input : InputEvent → ProtoEvent
  ping : ProtoEvent
  pong : Bool → ProtoEvent
  hello : (commit : Bytes) → ProtoEvent
  profile_changed : ProtoEvent
  profile_request : (request_id : ℕ) → ProtoEvent
  profile_start : (request_id width height total_len chunks : ℕ) (display_name : Bytes) → ProtoEvent
  profile_chunk : (request_id index : ℕ) (bytes : Bytes) → ProtoEvent
  clipboard_start : (transfer_id total_len chunks : ℕ) → ProtoEvent
  clipboard_image_start : (transfer_id width height total_len chunks : ℕ) → ProtoEvent
  clipboard_chunk : (transfer_id index : ℕ) (bytes : Bytes) → ProtoEvent
  clipboard_capabilities : ClipboardCapabilities → ProtoEvent
  clipboard_manifest : (transfer_id : ℕ) (entries : List ClipboardManifestEntry) → ProtoEvent
  clipboard_file_request : (transfer_id file_id request_id offset length : ℕ) → ProtoEvent
  clipboard_file_chunk : (transfer_id file_id request_id offset : ℕ) (bytes : Bytes) → ProtoEvent
  clipboard_file_complete : (transfer_id file_id request_id size : ℕ) (digest : Bytes) → ProtoEvent
  clipboard_transfer_cancel :
      (transfer_id : ℕ) (file_id : Option ℕ) (reason : ClipboardCancelReason) → ProtoEvent
  clipboard_transfer_progress : (transfer_id file_id completed total : ℕ) → ProtoEvent
  history_sync_request : (request_id offset : ℕ) → ProtoEvent
  history_record_start : (request_id record_id total_len chunks : ℕ) → ProtoEvent
  history_record_chunk : (request_id record_id index : ℕ) (bytes : Bytes) → ProtoEvent
  manual_file_offer : (transfer_id : ℕ) (file_name : Bytes) (size : ℕ) → ProtoEvent
  manual_file_decision : (transfer_id : ℕ) (decision : ManualDecision) → ProtoEvent
  manual_file_request : (transfer_id offset length : ℕ) → ProtoEvent
  manual_file_chunk : (transfer_id offset : ℕ) (bytes : Bytes) → ProtoEvent
  manual_file_complete : (transfer_id : ℕ) (sha256 : Bytes) → ProtoEvent
  manual_file_result : (transfer_id : ℕ) (success : Bool) (error : Option Bytes) → ProtoEvent
  manual_file_cancel : (transfer_id : ℕ) → ProtoEvent
  history_sync_page_end : (request_id : ℕ) (next_offset : Option ℕ) → ProtoEvent
  history_clear_boundary_request : (operation_id : Bytes) → ProtoEvent
  history_clear_boundary : (operation_id : Bytes) (boundary : Boundary) → ProtoEvent
  history_clear_apply : (operation_id : Bytes) (boundary : Boundary) → ProtoEvent
  history_clear_ack : (operation_id : Bytes) (affected : ℕ) (error : Option Bytes) → ProtoEvent
