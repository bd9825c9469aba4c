-- ===== src/Stream/Inspect.antt =====
-- packages/stream-filter/index.mjs: `inspectResponseStream`. The protector is an interface, which the core
-- implements: an operation answers `none` where the code's answer is blocked. The source is the texts that
-- the decoder gives for the chunks, and at its end.
use haechi.Prelude.{
  ℕ, Bool, true, false, not, Option, none, some, List, [], ◌∷◌, ◌++◌, if◌then◌else◌, any, Text,
  text_eq, utf16, Json, null, boolean, number, string, array, object,
}
use haechi.Stream.{Format, sse, ndjson, stringify}
use haechi.Stream.Splitter.{push, finish, push_all, frames_of}
use haechi.Stream.Frames.{
  Parsed, parsed, control, content, parse_frame, serialize_frame, serialize_text_frame,
}
use haechi.Stream.Paths.{Part, get_by_path, set_by_path, build_path_object, is_object}
pub mod Order
pub mod FailClosed
pub mod Leaks

pub record Protector (State : Type 0) : Type 0 where
  pub push_text : Text → State → Option Text × State
  pub flush : State → Option Text × State
  pub protect_text : Text → State → Option Text × State
  pub protect_frame_extras : Json → State → Option Json × State

pub record Streaming : Type 0 where
  pub format : Format
  pub delta_path : Option (List Part)
  pub flush_on_type : Option (List Part × List Text)

-- The template is the object and the raw text of the last frame with delta text.
pub record Inspection (State : Type 0) : Type 0 where
  pub protector : State
  pub written : List Text
  pub blocked : Bool
  pub template : Option (Json × Text)

-- `values.includes(value)`
abbrev pub is_among : List Text → Option Json → Bool
unfolding text_eq
is_among values (some (string s)) = any (text_eq s) values
is_among values _ = false

abbrev pub is_flush_frame : Option (List Part × List Text) → Json → Bool
unfolding get_by_path is_among
is_flush_frame none v = false
is_flush_frame (some on) v = is_among on.1 (get_by_path on.0 (some v))

abbrev pub text_in : Option Json → Option Text
text_in (some (string s)) = some s
text_in _ = none

-- `typeof found === "string"`
abbrev pub delta_text : Option (List Part) → Json → Option Text
unfolding get_by_path
delta_text none v = none
delta_text (some path) v = text_in (get_by_path path (some v))

-- `setByPath(object, deltaPath, text)`, whose answer is not used.
abbrev pub with_delta : Option (List Part) → Text → Json → Json
unfolding set_by_path
with_delta none text v = v
with_delta (some path) text v = (set_by_path path (string text) v).1

module _ {State : Type 0} (json_parse : Text → Option Json) (p : Protector State)
    (streaming : Streaming) where
  abbrev pub write : Text → Inspection State → Inspection State
  write text st = record st { written = st.written ++ text ∷ [] }

  -- The frame for a held tail: the template with the text, or a minimal one.
  abbrev pub tail_frame : List Part → Text → Option (Json × Text) → Text
  unfolding serialize_frame set_by_path build_path_object
  tail_frame path text none =
      serialize_frame (build_path_object path (string text)) streaming.format none
  tail_frame path text (some template) =
      serialize_frame (set_by_path path (string text) template.0).1 streaming.format
        (some template.1)

  abbrev pub write_tail : Option (List Part) → Text → Inspection State → Inspection State
  unfolding tail_frame
  write_tail none text st = st
  write_tail (some path) [] st = st
  write_tail (some path) (c ∷ s) st = write (tail_frame path (c ∷ s) st.template) st

  abbrev pub after_flush : Option Text × State → Inspection State → Inspection State
  unfolding write_tail
  after_flush (none, s) st = record st { protector = s; blocked = true }
  after_flush (some text, s) st = write_tail streaming.delta_path text (record st { protector = s })

  unfoldable pub flush_held_tail : Inspection State → Inspection State
  unfolding after_flush
  flush_held_tail st = after_flush (p.flush st.protector) st

  abbrev pub after_text : Text → Option Text × State → Inspection State → Inspection State
  unfolding serialize_text_frame
  after_text raw (none, s) st = record st { protector = s; blocked = true }
  after_text raw (some text, s) st =
      write (serialize_text_frame text streaming.format (some raw)) (record st { protector = s })

  abbrev pub after_push : Text → Json → Option Text × State → Inspection State → Inspection State
  unfolding serialize_frame with_delta
  after_push raw v (none, s) st = record st { protector = s; blocked = true }
  after_push raw v (some text, s) st =
      let frame = with_delta streaming.delta_path text v in
      write (serialize_frame frame streaming.format (some raw))
        (record st { protector = s; template = some (frame, raw) })

  abbrev pub after_extras :
      Text → Option Text → Option Json × State → Inspection State → Inspection State
  unfolding serialize_frame after_push
  after_extras raw delta (none, s) st = record st { protector = s; blocked = true }
  after_extras raw none (some v, s) st =
      write (serialize_frame v streaming.format (some raw)) (record st { protector = s })
  after_extras raw (some text) (some v, s) st = after_push raw v (p.push_text text s) st

  abbrev pub without_delta : Option Text → Json → Json
  unfolding with_delta
  without_delta none v = v
  without_delta (some text) v = with_delta streaming.delta_path [] v

  unfoldable pub handle_object : Text → Json → Inspection State → Inspection State
  unfolding delta_text after_extras without_delta
  handle_object raw v st =
      let delta = delta_text streaming.delta_path v in
      after_extras raw delta (p.protect_frame_extras (without_delta delta v) st.protector) st

  -- A frame that ends a sequence of deltas comes after what is held back of them.
  unfoldable pub flush_before : Json → Inspection State → Inspection State
  unfolding flush_held_tail is_flush_frame
  flush_before v st = if is_flush_frame streaming.flush_on_type v then flush_held_tail st else st

  unfoldable pub handle_parsed : Text → Parsed → Inspection State → Inspection State
  unfolding after_text handle_object flush_before
  handle_parsed raw control st = write raw st
  handle_parsed raw (content text) st = after_text raw (p.protect_text text st.protector) st
  handle_parsed raw (parsed v) st =
      if is_object v
      then (if (flush_before v st).blocked
          then flush_before v st
          else handle_object raw v (flush_before v st))
      else after_text raw (p.protect_text (stringify v) st.protector) st

  unfoldable pub handle_frame : Text → Inspection State → Inspection State
  unfolding handle_parsed parse_frame
  handle_frame raw st = handle_parsed raw (parse_frame json_parse streaming.format raw) st

  -- The loop over the frames of a chunk.
  unfoldable pub handle_frames : List Text → Inspection State → Inspection State
  unfolding handle_frame
  handle_frames [] st = st
  handle_frames (raw ∷ raws) st =
      let rest = handle_frames raws (handle_frame raw st) in
      if (handle_frame raw st).blocked then handle_frame raw st else rest

  -- The loop over the chunks; also the splitter's buffer.
  unfoldable pub inspect_chunks : List Text → Text → Inspection State → Inspection State × Text
  unfolding handle_frames push
  inspect_chunks [] buffer st = (st, buffer)
  inspect_chunks (text ∷ texts) buffer st =
      let here = push streaming.format text buffer in
      let after = handle_frames here.0 st in
      let rest = inspect_chunks texts here.1 after in
      if after.blocked then (after, here.1) else rest

  unfoldable pub inspect_response_stream : List Text → Text → Inspection State → Inspection State
  unfolding inspect_chunks finish flush_held_tail
  inspect_response_stream texts last st =
      let looped = inspect_chunks texts [] st in
      let ended =
        if looped.0.blocked then looped.0 else handle_frames (finish last looped.1) looped.0 in
      if ended.blocked then ended else flush_held_tail ended
