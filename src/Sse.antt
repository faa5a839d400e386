-- ===== src/Sse.antt =====
-- indexer/sse/parser.rs of crates/opake-core: the line-framing parser of the event stream.
-- The decoder of a finished frame (indexer/sse/events.rs, over serde) and the lossy UTF-8
-- conversion are the parameter `Decoder`. A loop over `merged[start..i]` is a recursion on the
-- bytes that are left, with the line `merged[start..i]` read so far.
pub mod Consumer
pub mod Chunks
pub mod Frames
mod Examples
use opake.Base.{
  ◌≡◌, Bool, true, false, ◌&&◌, Option, none, some, List, [], ◌∷◌, ◌++◌, Str, codes, ◌==◌, is_empty,
  is_some, if◌then◌else◌, not, nat_eq, str_eq,
}
use opake.Error.{Error, Result, err, sse, message}

pub record Decoder (Event : Type 0) : Type 0 where
  pub from_name_and_data : Str → Str → Result Event
  pub from_utf8_lossy : Str → Str

pub record FrameBuffer : Type 0 where
  pub event : Option Str
  pub payload : Str

abbrev pub new_frame : FrameBuffer
new_frame = record { event = none; payload = [] }

-- The space after the colon is optional.
pub strip_space : Str → Str
strip_space [] = []
strip_space (c ∷ s) = if c == b' ' then s else c ∷ s

-- The field before the first colon and the value behind it; a line with no colon has no value.
pub split_field : Str → Str × Str
split_field [] = ([], [])
split_field (c ∷ s) =
    let (field, value) = split_field s in
    if c == b':' then ([], strip_space s) else (c ∷ field, value)

pub starts_with_colon : Str → Bool
starts_with_colon [] = false
starts_with_colon (c ∷ s) = c == b':'

module _ {Event : Type 0} (d : Decoder Event) where
  emit : Option Str → Str → Result Event
  emit (some name) payload = d.from_name_and_data name payload
  emit none payload = err (sse (message "SSE frame missing event: header" []))

  flush_frame : FrameBuffer → Option (Result Event) × FrameBuffer
  flush_frame b =
      if not (is_some b.event) && is_empty b.payload
      then (none, b)
      else (some (emit b.event b.payload), record { event = none; payload = [] })

  apply_field : FrameBuffer → Str → Str → FrameBuffer
  apply_field b field value =
      if field == codes "event"
      then record b { event = some (d.from_utf8_lossy value) }
      else if field == codes "data"
      then record b {
        payload = (if is_empty b.payload then [] else b.payload ++ b'\n' ∷ []) ++ value;
      }
      else b

  pub feed_line : FrameBuffer → Str → Option (Result Event) × FrameBuffer
  feed_line b line =
      if is_empty line
      then flush_frame b
      else if starts_with_colon line
      then (none, b)
      else (let (field, value) = split_field line in (none, apply_field b field value))

pub record LineAccumulator : Type 0 where
  pub frame : FrameBuffer
  pub carry : Str

abbrev pub new_accumulator : LineAccumulator
new_accumulator = record { frame = new_frame; carry = [] }

-- Strips the optional `\r` before a newline.
pub strip_cr : Str → Str
strip_cr [] = []
strip_cr (c ∷ []) = if c == b'\r' then [] else c ∷ []
strip_cr (c ∷ x ∷ s) = c ∷ strip_cr (x ∷ s)

push {ℓ} : {A : Type ℓ} → Option A → List A → List A
push none events = events
push (some e) events = e ∷ events

module _ {Event : Type 0} (d : Decoder Event) where
  -- What the loop does with one byte: a newline ends the line.
  end_line : FrameBuffer → Str → Bool → Option (Result Event) × FrameBuffer
  end_line b line true = feed_line d b (strip_cr line)
  end_line b line false = (none, b)

  -- `line` is `merged[start..i]`, and the last argument is `merged[i..]`.
  pub scan : FrameBuffer → Str → Str → List (Result Event) × FrameBuffer × Str
  scan b line [] = ([], b, line)
  scan b line (c ∷ rest) =
      let newline = c == b'\n' in
      let (r, b') = end_line b line newline in
      let (events, b'', carry) = scan b' (if newline then [] else line ++ c ∷ []) rest in
      (push r events, b'', carry)

  pub feed_bytes : LineAccumulator → Str → List (Result Event) × LineAccumulator
  feed_bytes a chunk =
      let (events, b, carry) = scan a.frame [] (a.carry ++ chunk) in
      (events, record { frame = b; carry = carry })

  -- The connection's loop over the chunks that it reads.
  pub feed_chunks : LineAccumulator → List Str → List (Result Event) × LineAccumulator
  feed_chunks a [] = ([], a)
  feed_chunks a (chunk ∷ chunks) =
      let (events, a') = feed_bytes a chunk in
      let (more, a'') = feed_chunks a' chunks in (events ++ more, a'')
