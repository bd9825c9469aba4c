-- ===== src/Stream/Frames.antt =====
-- packages/stream-filter/index.mjs: how a frame is read, and how it is written again.
use haechi.Prelude.{
  ℕ, zero, suc, Bool, true, false, not, ◌&&◌, ◌||◌, Option, none, some, List, [], ◌∷◌, ◌++◌, ◌==◌,
  if◌then◌else◌, any, filter, map, Text, text_eq, utf16, Json, is_some,
}
use haechi.Stream.{Format, sse, ndjson, trim, is_filled, lines, unlines, stringify}
pub mod Rewrites

-- The text after `[ \t]*` of a pattern.
unfoldable pub strip_blanks : Text → Text
strip_blanks [] = []
strip_blanks (c ∷ s) = let rest = strip_blanks s in if c == 32 || c == 9 then rest else c ∷ s

unfoldable pub strip_prefix : Text → Text → Option Text
strip_prefix [] s = some s
strip_prefix (c ∷ p) [] = none
strip_prefix (c ∷ p) (d ∷ s) = let rest = strip_prefix p s in if c == d then rest else none

-- `/^[ \t]*data:/`, with the text after it.
unfoldable pub after_data : Text → Option Text
unfolding strip_blanks strip_prefix
after_data line = strip_prefix (utf16 "data:") (strip_blanks line)

-- `SSE_DATA_LINE.test(line)`
unfoldable pub is_data_line : Text → Bool
unfolding after_data
is_data_line line = is_some (after_data line)

-- What `.` does not match.
abbrev pub is_terminator : ℕ → Bool
is_terminator c = c == 10 || c == 13 || c == 0x2028 || c == 0x2029

abbrev pub without_space : Text → Text
without_space [] = []
without_space (c ∷ s) = if c == 32 then s else c ∷ s

-- `(.*)$` and `replace(/^ /, "")`
abbrev pub payload_of : Option Text → Option Text
payload_of none = none
payload_of (some s) = if any is_terminator s then none else some (without_space s)

unfoldable pub sse_data_payload : Text → Option Text
unfolding after_data
sse_data_payload line = payload_of (after_data line)

abbrev pub cons_some : Option Text → List Text → List Text
cons_some none rest = rest
cons_some (some s) rest = s ∷ rest

-- The payloads of the lines that have one.
unfoldable pub payloads : List Text → List Text
unfolding sse_data_payload
payloads [] = []
payloads (l ∷ ls) = cons_some (sse_data_payload l) (payloads ls)

-- A frame's JSON, nothing to inspect, or text that is not JSON.
pub data Parsed : Type 0 where
  parsed : Json → Parsed
  control : Parsed
  content : Text → Parsed

abbrev pub value_or_text : Text → Option Json → Parsed
value_or_text payload none = content payload
value_or_text payload (some v) = parsed v

-- The test for a frame with no data line, and for the last one.
unfoldable pub parse_payloads : (Text → Option Json) → List Text → Parsed
unfolding text_eq unlines
parse_payloads json_parse [] = control
parse_payloads json_parse (l ∷ ls) =
    if text_eq (unlines (l ∷ ls)) (utf16 "[DONE]")
    then control
    else value_or_text (unlines (l ∷ ls)) (json_parse (unlines (l ∷ ls)))

unfoldable pub parse_body : (Text → Option Json) → Format → Text → Parsed
unfolding lines payloads parse_payloads
parse_body json_parse format [] = control
parse_body json_parse sse (c ∷ s) = parse_payloads json_parse (payloads (lines (c ∷ s)))
parse_body json_parse ndjson (c ∷ s) = value_or_text (c ∷ s) (json_parse (c ∷ s))

unfoldable pub parse_frame : (Text → Option Json) → Format → Text → Parsed
unfolding trim parse_body
parse_frame json_parse format raw = parse_body json_parse format (trim raw)

-- `replace(/\n+$/, "")`
abbrev pub keep_before : ℕ → Text → Text
keep_before c [] = if c == b'\n' then [] else c ∷ []
keep_before c (d ∷ s) = c ∷ d ∷ s

unfoldable pub strip_newlines : Text → Text
strip_newlines [] = []
strip_newlines (c ∷ s) = keep_before c (strip_newlines s)

-- The loop over the frame's lines, and the payload's lines if no line made place for them.
unfoldable pub substitute : List Text → Bool → List Text → List Text
unfolding is_data_line
substitute new written [] = if written then [] else new
substitute new written (l ∷ ls) =
    let rest = substitute new written ls in
    let after = substitute new true ls in
    if is_data_line l then (if written then rest else new ++ after) else l ∷ rest

unfoldable pub original_lines : Option Text → List Text
unfolding lines strip_newlines
original_lines none = []
original_lines (some raw) = lines (strip_newlines raw)

abbrev pub with_data : Text → Text
with_data line = utf16 "data: " ++ line

unfoldable pub serialize_frame : Json → Format → Option Text → Text
unfolding stringify substitute unlines original_lines
serialize_frame v sse original =
    unlines (substitute (with_data (stringify v) ∷ []) false (original_lines original))
    ++ utf16 "\n\n"
serialize_frame v ndjson original = stringify v ++ utf16 "\n"

unfoldable pub serialize_text_frame : Text → Format → Option Text → Text
unfolding substitute lines unlines original_lines
serialize_text_frame text sse original =
    unlines (substitute (map with_data (lines text)) false (original_lines original))
    ++ utf16 "\n\n"
serialize_text_frame text ndjson original = text ++ utf16 "\n"
