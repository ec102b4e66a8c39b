-- ===== src/Proto/Examples.antt =====
-- The protocol of crates/syntra-proto on concrete messages.
use syntra.Prelude.{
  ◌≡◌, ◌≤◌, ◌<◌, ◌+◌, refl, ◌↔◌, true, false, bytes_eq, none, some, List, [], ◌∷◌, arith, length,
  codes, All,
}
use syntra.Proto.Error.{Bytes, Result, ok, err}
use syntra.Proto.Error
use syntra.Proto.Wire
use syntra.Proto.Event.{ProtoEvent}
use syntra.Proto.EventType.{event_type, byte_of_event_type}
use syntra.Proto.Encode.{payload, encode}
use syntra.Proto.Encode
use syntra.Proto.Decode.{decode}
use syntra.Proto.Decode
use syntra.Proto.RoundTrip.{received, decode-encode}
use syntra.Proto.Sizes.{size_limit, encode-size}
use syntra.Proto.Names.{
  validate_path, validate_manual_file_name, has_bad_shape, is_device_stem, stem_of, split,
  trim_end_spaces, starts_with, ends_with, contains, eq_ignore_ascii_case,
}
use syntra.Proto.Names.Parts.{IsComponent, join}
use syntra.Proto.Names.Safe.{validate_path_iff, manual_name-IsComponent}
use syntra.Proto.Limits.{checked_add}
use syntra.Proto.Validate.{
  validate_clipboard_start, validate_history_start, validate_request, validate_file_chunk,
  validate_file_position, differs_from,
}
use syntra.Proto.Validate.Counts.{Covers, validate_clipboard_start_iff, validate_history_start_iff}
use syntra.Proto.Validator.{
  ClipboardFileChunkValidator, new, is_other, check_size, validate_chunk, validate_complete,
}
use syntra.Proto.Validator.Sessions.{
  Answer, validate, run, accepted_chunks, accepted_completions, chunks_in, completions_in,
  accepted-le-one, completion-InRange, completion_closes,
}

-- The piece "hi" of a history record.
abbrev piece : ProtoEvent
piece = ProtoEvent.history_record_chunk 3 4 0 (codes "hi")

abbrev piece_bytes : Bytes
piece_bytes =
    24 ∷ 0 ∷ 0 ∷ 0 ∷ 0 ∷ 0 ∷ 0 ∷ 0 ∷ 3 ∷ 0 ∷ 0 ∷ 0 ∷ 0 ∷ 0 ∷ 0 ∷ 0 ∷ 4 ∷ 0 ∷ 0 ∷ 0 ∷ 0 ∷ codes "hi"

encode-piece : encode piece ≡ ok piece_bytes
unfolding encode payload event_type byte_of_event_type Encode.History.record_chunk Wire.put_u64
    Wire.put_u32 Wire.to_be_bytes
encode-piece = refl

decode-encode_example : decode piece_bytes ≡ ok (received piece)
decode-encode_example =
    decode-encode piece piece_bytes (omega arith, omega arith, omega arith) tt encode-piece

encode-size_example :
    (length piece_bytes ≤ size_limit piece)
    × (body : Bytes) × (piece_bytes ≡ byte_of_event_type (event_type piece) ∷ body)
encode-size_example = encode-size piece piece_bytes encode-piece

-- A request for 10 bytes at the offset 5.
abbrev request_bytes : Bytes
request_bytes =
    36 ∷ 0 ∷ 0 ∷ 0 ∷ 0 ∷ 0 ∷ 0 ∷ 0 ∷ 9 ∷ 0 ∷ 0 ∷ 0 ∷ 0 ∷ 0 ∷ 0 ∷ 0 ∷ 5 ∷ 0 ∷ 0 ∷ 0 ∷ 10 ∷ []

validate_path_iff_example : (validate_path (codes "a/b") ≡ ok tt) ↔ (
    (p : Bytes) × (parts : List Bytes) × All IsComponent (p ∷ parts)
    × (join (p ∷ parts) ≡ codes "a/b")
    × (length (codes "a/b") ≤ 1024))
validate_path_iff_example = validate_path_iff (codes "a/b")

name_passes : validate_manual_file_name (codes "a.txt") ≡ ok tt
unfolding validate_manual_file_name has_bad_shape is_device_stem stem_of split trim_end_spaces
    starts_with ends_with contains bytes_eq eq_ignore_ascii_case
name_passes = refl

manual_name-IsComponent_example :
    IsComponent (codes "a.txt") × (validate_path (codes "a.txt") ≡ ok tt)
manual_name-IsComponent_example = manual_name-IsComponent (codes "a.txt") name_passes

device_refused :
    validate_manual_file_name (codes "nul.txt") ≡ err (Error.invalid_path (codes "nul.txt"))
unfolding validate_manual_file_name has_bad_shape is_device_stem stem_of split trim_end_spaces
    starts_with ends_with contains bytes_eq eq_ignore_ascii_case
device_refused = refl

validate_clipboard_start_iff_example :
    (validate_clipboard_start 20000 2 ≡ ok tt) ↔ ((20000 ≤ 67108864) × Covers 16371 20000 2)
validate_clipboard_start_iff_example = validate_clipboard_start_iff 20000 2

validate_history_start_iff_example :
    (validate_history_start 1180 2 ≡ ok tt) ↔ ((0 < 1180) × (1180 ≤ 50331648) × Covers 1179 1180 2)
validate_history_start_iff_example = validate_history_start_iff 1180 2

-- The validator of a request for 100 bytes from offset 0.
abbrev validator : ClipboardFileChunkValidator
validator = record {
  transfer_id = 1;
  file_id = 2;
  request_id = 3;
  offset = 0;
  length = 100;
  chunk_received = false;
  chunk_end = none;
  eof = false;
  complete = false;
}

-- A short piece twice, and the completion it leads to.
abbrev answers : List Answer
answers = Answer.chunk 1 2 3 0 40 ∷ Answer.chunk 1 2 3 0 40 ∷ []

accepted-le-one_example :
    (accepted_chunks validator answers ≤ 1) × (accepted_completions validator answers ≤ 1)
accepted-le-one_example = accepted-le-one validator answers

new-validator : new 1 2 3 0 100 ≡ ok validator
unfolding new validate_request checked_add
new-validator = refl

abbrev completed : ClipboardFileChunkValidator
completed = record validator {
  chunk_received = true;
  chunk_end = some 40;
  eof = true;
  complete = true;
}

complete-answers : validate_complete (run validator answers) 1 2 3 40 ≡ ok completed
unfolding run validate validate_chunk validate_complete is_other check_size validate_file_chunk
    validate_file_position differs_from checked_add
complete-answers = refl

completion-InRange_example : (0 ≤ 40) × (40 < 0 + 100) × (40 ≤ 67108864)
completion-InRange_example =
    completion-InRange 1 2 3 0 100 validator answers 1 2 3 40 completed new-validator
      complete-answers

completion_closes_example :
    (chunks_in (Answer.chunk 1 2 3 0 40) (validate completed (Answer.chunk 1 2 3 0 40)) ≡ 0)
    × (completions_in (Answer.chunk 1 2 3 0 40) (validate completed (Answer.chunk 1 2 3 0 40)) ≡ 0)
completion_closes_example =
    completion_closes (run validator answers) completed 1 2 3 40 (Answer.chunk 1 2 3 0 40)
      complete-answers
