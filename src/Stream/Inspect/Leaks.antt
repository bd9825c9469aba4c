-- ===== src/Stream/Inspect/Leaks.antt =====
-- Where the reading of a frame and its writing disagree on what a data line is.
use haechi.Prelude.{
  ℕ, ◌≡◌, refl, ap, ◌∙◌, true, false, Option, none, some, List, [], ◌∷◌, ◌++◌, ◌==◌, arith, any,
  map, Text, text_eq, utf16, Json, append_assoc,
}
use haechi.Stream.{sse, is_space, trim, trim_end, trim_start, keep_unit, lines, unlines}
use haechi.Stream.Lines.{is_newline, IsLine, lines_some}
use haechi.Stream.Frames.{
  Parsed, control, content, parse_frame, parse_body, parse_payloads, payloads, sse_data_payload,
  after_data, is_data_line, strip_blanks, strip_prefix, is_terminator, without_space,
  strip_newlines, keep_before, substitute, with_data, serialize_text_frame, original_lines,
}
use haechi.Stream.Inspect.{
  Protector, Streaming, Inspection, after_text, handle_parsed, handle_frame,
}

keep_unit_filled : (d : ℕ) (x : Text) (c : ℕ) → keep_unit d (x ++ c ∷ []) ≡ d ∷ (x ++ c ∷ [])
keep_unit_filled d [] c = refl
keep_unit_filled d (e ∷ x) c = refl

trim_end_keeps :
    (x : Text) (c : ℕ) → is_space c ≡ false → trim_end (x ++ c ∷ utf16 "\n\n") ≡ x ++ c ∷ []
unfolding trim_end
trim_end_keeps [] c n = rw n refl
trim_end_keeps (d ∷ x) c n = ap (keep_unit d) (trim_end_keeps x c n) ∙ keep_unit_filled d x c

keep_before_filled : (d : ℕ) (x : Text) (c : ℕ) → keep_before d (x ++ c ∷ []) ≡ d ∷ (x ++ c ∷ [])
keep_before_filled d [] c = refl
keep_before_filled d (e ∷ x) c = refl

strip_newlines_keeps :
    (x : Text) (c : ℕ) → is_newline c ≡ false → strip_newlines (x ++ c ∷ utf16 "\n\n") ≡ x ++ c ∷ []
unfolding strip_newlines
strip_newlines_keeps [] c n = rw n refl
strip_newlines_keeps (d ∷ x) c n =
    ap (keep_before d) (strip_newlines_keeps x c n) ∙ keep_before_filled d x c

one_line : (l : Text) → IsLine l → lines l ≡ l ∷ []
unfolding lines
one_line [] h = refl
one_line (c ∷ l) h = ground (arith, one_line l)

space_newline : (c : ℕ) → is_space c ≡ false → is_newline c ≡ false
unfolding is_space
space_newline c h = ground arith

terminator-IsLine : (s : Text) → any is_terminator s ≡ false → IsLine s
terminator-IsLine [] h = refl
terminator-IsLine (c ∷ s) h = ground (arith, terminator-IsLine s)

abbrev pub data_line : Text → ℕ → Text
data_line body c = utf16 "data:" ++ (body ++ c ∷ [])

-- What the parser makes of a frame of one line, which may begin with white space.
trim_line :
    (lead body : Text) (c : ℕ)
    → is_space c ≡ false
    → trim ((lead ++ (utf16 "data:" ++ body)) ++ c ∷ utf16 "\n\n")
      ≡ trim_start ((lead ++ (utf16 "data:" ++ body)) ++ c ∷ [])
unfolding trim
trim_line lead body c n = ap trim_start (trim_end_keeps (lead ++ (utf16 "data:" ++ body)) c n)

payload_data_line :
    (body : Text) (c : ℕ)
    → any is_terminator (body ++ c ∷ []) ≡ false
    → sse_data_payload (data_line body c) ≡ some (without_space (body ++ c ∷ []))
unfolding sse_data_payload after_data strip_blanks strip_prefix
payload_data_line body c h = rw h refl

no_payload_data_line :
    (body : Text) (c : ℕ)
    → any is_terminator (body ++ c ∷ []) ≡ true
    → sse_data_payload (data_line body c) ≡ none
unfolding sse_data_payload after_data strip_blanks strip_prefix
no_payload_data_line body c h = rw h refl

no_payloads :
    (body : Text) (c : ℕ)
    → any is_terminator (body ++ c ∷ []) ≡ true
    → payloads (data_line body c ∷ []) ≡ []
unfolding payloads
no_payloads body c h = rw (no_payload_data_line body c h) refl

parse_content :
    (json_parse : Text → Option Json) (l text : Text)
    → sse_data_payload l ≡ some text
    → text_eq text (utf16 "[DONE]") ≡ false
    → json_parse text ≡ none
    → parse_payloads json_parse (payloads (l ∷ [])) ≡ content text
unfolding payloads parse_payloads unlines
parse_content json_parse l text e d j = rw (e, d, j) refl

not_data_line :
    (lead : ℕ) (l : Text)
    → (lead == 32) ≡ false
    → (lead == 9) ≡ false
    → (b'd' == lead) ≡ false
    → is_data_line (lead ∷ l) ≡ false
unfolding is_data_line after_data strip_blanks strip_prefix
not_data_line lead l s t d = rw (s, t, d) refl

unlines-append :
    (l end : Text) (ls : List Text) (m : Text) (ms : List Text)
    → ls ≡ m ∷ ms
    → unlines (l ∷ ls) ++ end ≡ l ++ (b'\n' ∷ (unlines ls ++ end))
unfolding unlines
unlines-append l end ls m ms e = rw e (append_assoc l (b'\n' ∷ unlines (m ∷ ms)) end)

-- A line that the writer takes for another field is written before the new lines.
serialize_verbatim :
    (lead : ℕ) (body out : Text) (c : ℕ)
    → (lead == 32) ≡ false
    → (lead == 9) ≡ false
    → (b'd' == lead) ≡ false
    → is_newline lead ≡ false
    → is_newline c ≡ false
    → IsLine (data_line body c)
    → serialize_text_frame out sse (some (lead ∷ (utf16 "data:" ++ (body ++ c ∷ utf16 "\n\n"))))
      ≡ (lead ∷ data_line body c) ++ (b'\n' ∷ (unlines (map with_data (lines out)) ++ utf16 "\n\n"))
unfolding serialize_text_frame original_lines substitute
serialize_verbatim lead body out c s t d n e l =
    let whole = lead ∷ data_line body c in
    let stripped : strip_newlines (lead ∷ (utf16 "data:" ++ (body ++ c ∷ utf16 "\n\n"))) ≡ whole =
      strip_newlines_keeps (lead ∷ (utf16 "data:" ++ body)) c e in
    let alone : lines whole ≡ whole ∷ [] = one_line whole (rw n l) in
    let new = lines_some out in
    ap (λ r. unlines (substitute (map with_data (lines out)) false (lines r)) ++ utf16 "\n\n")
      stripped
    ∙ ap (λ ls. unlines (substitute (map with_data (lines out)) false ls) ++ utf16 "\n\n") alone
    ∙ ap (λ ls. unlines ls ++ utf16 "\n\n") (kept (map with_data (lines out)))
    ∙ unlines-append whole (utf16 "\n\n") (map with_data (lines out)) (with_data new.0)
        (map with_data new.1) (ap (λ ls. map with_data ls) new.2)
  where
    kept :
        (new : List Text)
        → substitute new false ((lead ∷ data_line body c) ∷ []) ≡ (lead ∷ data_line body c) ∷ new
    kept new = rw (not_data_line lead (data_line body c) s t d) refl

module _ {State : Type 0} (json_parse : Text → Option Json) (p : Protector State)
    (streaming : Streaming) where
  parse_data_line :
      (raw body : Text) (c : ℕ)
      → trim raw ≡ data_line body c
      → IsLine (data_line body c)
      → parse_frame json_parse sse raw
        ≡ parse_payloads json_parse (payloads (data_line body c ∷ []))
  unfolding parse_frame parse_body
  parse_data_line raw body c t l =
      ap (parse_body json_parse sse) t
      ∙ ap (λ ls. parse_payloads json_parse (payloads ls)) (one_line (data_line body c) l)

  handle_frame_parsed :
      (raw : Text) (frame : Parsed) (st : Inspection State)
      → streaming.format ≡ sse
      → parse_frame json_parse sse raw ≡ frame
      → handle_frame json_parse p streaming raw st
        ≡ handle_parsed json_parse p streaming raw frame st
  unfolding handle_frame
  handle_frame_parsed raw frame st f e =
      ap (λ g. handle_parsed json_parse p streaming raw (parse_frame json_parse g raw) st) f
      ∙ ap (λ x. handle_parsed json_parse p streaming raw x st) e

  -- A server-sent event is passed on unread if its data line holds a carriage return or a separator of lines
  -- or paragraphs, which JSON texts may hold: the pattern that reads the line does not match it, though it
  -- is a data line for the pattern that writes. The whole frame is written as it came, and the protector
  -- is not asked.
  pub handle_frame-unread :
      (body : Text) (c : ℕ) (st : Inspection State)
      → streaming.format ≡ sse
      → is_space c ≡ false
      → IsLine (body ++ c ∷ [])
      → any is_terminator (body ++ c ∷ []) ≡ true
      → (is_data_line (data_line body c) ≡ true)
        × (handle_frame json_parse p streaming (utf16 "data:" ++ (body ++ c ∷ utf16 "\n\n")) st
            ≡ record st {
              written = st.written ++ (utf16 "data:" ++ (body ++ c ∷ utf16 "\n\n")) ∷ [];
            })
  unfolding handle_parsed is_data_line after_data strip_blanks strip_prefix trim_start is_space
      parse_payloads
  handle_frame-unread body c st f n l h =
      let raw = utf16 "data:" ++ (body ++ c ∷ utf16 "\n\n") in
      let read : parse_frame json_parse sse raw ≡ control =
        parse_data_line raw body c (trim_line [] body c n) l
        ∙ ap (parse_payloads json_parse) (no_payloads body c h) in
      (refl, handle_frame_parsed raw control st f read)

  -- A server-sent event whose data line begins with a white space that the writer's pattern does not allow,
  -- such as a carriage return, keeps its plain text. The parser trims the frame and reads the line, so the
  -- protector is asked for the text; but the writer takes the line for another field and writes it as it
  -- came, in front of the protected text.
  pub handle_frame-verbatim :
      (lead : ℕ) (body out : Text) (c : ℕ) (after : State) (st : Inspection State)
      → streaming.format ≡ sse
      → is_space lead ≡ true
      → ((lead == 32) ≡ false) × ((lead == 9) ≡ false) × (is_newline lead ≡ false)
      → is_space c ≡ false
      → any is_terminator (body ++ c ∷ []) ≡ false
      → text_eq (without_space (body ++ c ∷ [])) (utf16 "[DONE]") ≡ false
      → json_parse (without_space (body ++ c ∷ [])) ≡ none
      → p.protect_text (without_space (body ++ c ∷ [])) st.protector ≡ (some out, after)
      → handle_frame json_parse p streaming
          (lead ∷ (utf16 "data:" ++ (body ++ c ∷ utf16 "\n\n")))
          st
        ≡ record st {
          protector = after;
          written =
              st.written
              ++ ((lead ∷ data_line body c)
                  ++ (b'\n' ∷ (unlines (map with_data (lines out)) ++ utf16 "\n\n")))
                ∷ [];
        }
  unfolding trim_start is_space handle_parsed after_text
  handle_frame-verbatim lead body out c after st f w (s, t, n) e h d j a =
      let raw = lead ∷ (utf16 "data:" ++ (body ++ c ∷ utf16 "\n\n")) in
      let trimmed : trim raw ≡ data_line body c = trim_line (lead ∷ []) body c e ∙ (rw w refl) in
      let read : parse_frame json_parse sse raw ≡ content (without_space (body ++ c ∷ [])) =
        parse_data_line raw body c trimmed (terminator-IsLine (body ++ c ∷ []) h)
        ∙ parse_content json_parse (data_line body c) (without_space (body ++ c ∷ []))
            (payload_data_line body c h) d j in
      handle_frame_parsed raw (content (without_space (body ++ c ∷ []))) st f read
      ∙ written raw (without_space (body ++ c ∷ [])) a
      ∙ ap (λ s. record st { protector = after; written = st.written ++ s ∷ [] })
          (ap (λ g. serialize_text_frame out g (some raw)) f
            ∙ serialize_verbatim lead body out c s t (ground arith) n (space_newline c e)
                (terminator-IsLine (body ++ c ∷ []) h))
    where
      written :
          (raw text : Text)
          → p.protect_text text st.protector ≡ (some out, after)
          → handle_parsed json_parse p streaming raw (content text) st ≡ record st {
            protector = after;
            written = st.written ++ serialize_text_frame out streaming.format (some raw) ∷ [];
          }
      written raw text a = rw a refl
