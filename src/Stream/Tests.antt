-- ===== src/Stream/Tests.antt =====
-- Runs of the stream's inspection with a protector that holds back all delta text and blocks a text with an
-- exclamation mark, and the theorems at concrete responses.
use haechi.Prelude.{
  ℕ, ◌≡◌, refl, Bool, true, false, Option, none, some, List, [], ◌∷◌, ◌++◌, ◌==◌, if◌then◌else◌,
  any, map, Text, text_eq, utf16, Json, null, number, string, array, object, end, item, stop, field,
}
use haechi.Audit.{quote}
use haechi.Stream.{sse, lines, unlines, is_space, stringify}
use haechi.Stream.Splitter.{has_content, frames_of}
use haechi.Stream.Frames.{
  control, parse_frame, is_data_line, with_data, serialize_frame, serialize_text_frame,
}
use haechi.Stream.Frames.Rewrites.{Rewritten, serialize-Rewritten}
use haechi.Stream.Paths.{Part, key, index}
use haechi.Stream.Inspect.{
  Protector, Streaming, Inspection, handle_frame, handle_frames, inspect_response_stream,
}
use haechi.Stream.Inspect.Order.{inspect_response_stream-concat}
use haechi.Stream.Inspect.FailClosed.{WritesTail, inspect-blocked}
use haechi.Stream.Inspect.Leaks.{data_line, handle_frame-unread, handle_frame-verbatim}

abbrev delta : Text → Json
delta s = object (field (utf16 "text") (string s) stop)

-- The parser knows two texts.
abbrev reads : Text → Option Json
reads s = if text_eq s (utf16 "{\"text\":\"ab\"}") then some (delta (utf16 "ab")) else none

abbrev is_shout : ℕ → Bool
is_shout c = c == b'!'

abbrev quiet : Text → Option Text
quiet s = if any is_shout s then none else some s

abbrev holder : Protector Text
holder = record {
  push_text = λ s held. (some [], held ++ s);
  flush = λ held. (some held, []);
  protect_text = λ s held. (quiet s, held);
  protect_frame_extras = λ v held. (some v, held);
}

abbrev streaming : Streaming
streaming = record {
  format = sse;
  delta_path = some (key (utf16 "text") ∷ []);
  flush_on_type = none;
}

abbrev start : Inspection Text
start = record { protector = []; written = []; blocked = false; template = none }

-- A delta, a comment and the end: the delta's text is written with the tail.
streamed :
    (inspect_response_stream reads holder streaming
      (utf16 "data: {\"text\":\"ab\"}\n" ∷ utf16 "\n: ping\n\n" ∷ [])
      []
      start).written
    ≡ utf16 "data: {\"text\":\"\"}\n\n"
      ∷ utf16 ": ping\n\n"
      ∷ utf16 "data: {\"text\":\"ab\"}\n\n"
      ∷ []
unfolding inspect_response_stream quote has_content
streamed = refl

-- A JSON text may hold a separator of lines as it is.
separated :
    parse_frame (λ s. some null) sse (utf16 "data: {\"a\":\"" ++ 0x2028 ∷ utf16 "\"}\n\n") ≡ control
unfolding parse_frame
separated = refl

-- A response with carriage returns whose last line is the sentinel is one frame, and is not read.
carriage_returns :
    parse_frame (λ s. some null) sse (utf16 "data: {\"a\":1}\r\n\r\ndata: [DONE]\r\n\r\n") ≡ control
unfolding parse_frame
carriage_returns = refl

split_delimiter :
    frames_of sse (utf16 "a\n" ∷ utf16 "\n\n\nb" ∷ []) (utf16 "c") ≡ utf16 "a\n\n" ∷ utf16 "bc" ∷ []
unfolding frames_of has_content
split_delimiter = refl

inspect_response_stream-concat_example :
    inspect_response_stream reads holder streaming
      (utf16 "data: x\n" ∷ utf16 "\n" ∷ [])
      (utf16 "y")
      start
    ≡ inspect_response_stream reads holder streaming (utf16 "data: x\n\n" ∷ []) (utf16 "y") start
inspect_response_stream-concat_example =
    inspect_response_stream-concat reads holder streaming (utf16 "data: x\n" ∷ utf16 "\n" ∷ [])
      (utf16 "data: x\n\n" ∷ []) (utf16 "y") start refl refl

abbrev shouted : List Text
shouted = utf16 "data: x\n\ndata: y!\n\ndata: z\n\n" ∷ []

abbrev until_shout : Inspection Text
unfolding handle_frames
until_shout = handle_frames reads holder streaming (utf16 "data: x\n\n" ∷ []) start

inspect-blocked_example :
    (inspect_response_stream reads holder streaming shouted [] start
      ≡ handle_frame reads holder streaming (utf16 "data: y!\n\n") until_shout)
    × WritesTail reads holder streaming until_shout
        (inspect_response_stream reads holder streaming shouted [] start)
unfolding frames_of handle_frames until_shout has_content
inspect-blocked_example =
    inspect-blocked reads holder streaming shouted [] (utf16 "data: x\n\n" ∷ [])
      (utf16 "data: z\n\n" ∷ []) (utf16 "data: y!\n\n") start refl refl refl refl

serialize-Rewritten_example :
    Rewritten
      (map with_data (lines (utf16 "hidden")))
      (utf16 "event: m\n \tdata: 010\n\n")
      (serialize_text_frame (utf16 "hidden") sse (some (utf16 "event: m\n \tdata: 010\n\n")))
    × Rewritten
        (with_data (stringify (number 7)) ∷ [])
        (utf16 "event: m\n \tdata: 010\n\n")
        (serialize_frame (number 7) sse (some (utf16 "event: m\n \tdata: 010\n\n")))
serialize-Rewritten_example =
    serialize-Rewritten (utf16 "event: m\n \tdata: 010\n\n") (utf16 "hidden") (number 7)

abbrev choices : Json
choices = object (field (utf16 "choices") (array (item (delta (utf16 "ab")) end)) stop)

abbrev chosen : List Part
chosen = key (utf16 "choices") ∷ index 0 ∷ key (utf16 "text") ∷ []

handle_frame-unread_example :
    (is_data_line (data_line (utf16 " 010-1234-5678" ++ 0x2028 ∷ []) b'.') ≡ true)
    × (handle_frame reads holder streaming
          (utf16 "data: 010-1234-5678" ++ 0x2028 ∷ utf16 ".\n\n")
          start
        ≡ record start { written = (utf16 "data: 010-1234-5678" ++ 0x2028 ∷ utf16 ".\n\n") ∷ [] })
unfolding is_space
handle_frame-unread_example =
    handle_frame-unread reads holder streaming (utf16 " 010-1234-5678" ++ 0x2028 ∷ []) b'.' start
      refl refl refl refl

handle_frame-verbatim_example :
    handle_frame reads holder streaming (utf16 "\rdata: 010-1234-5678\n\n") start
    ≡ record start { written = utf16 "\rdata: 010-1234-5678\ndata: 010-1234-5678\n\n" ∷ [] }
unfolding is_space text_eq lines unlines
handle_frame-verbatim_example =
    handle_frame-verbatim reads holder streaming 13 (utf16 " 010-1234-567") (utf16 "010-1234-5678")
      b'8' [] start refl refl (refl, refl, refl) refl refl refl refl refl
