-- ===== src/Stream/Splitter.antt =====
-- packages/stream-filter/index.mjs: `createFrameSplitter`. `push` and `end` give the frames and the
-- buffer after the call.
use haechi.Prelude.{
  ℕ, zero, suc, Bool, true, false, ◌&&◌, Option, none, some, List, [], ◌∷◌, ◌++◌, ◌==◌,
  if◌then◌else◌, length, drop, filter, Text, utf16,
}
use haechi.Stream.{Format, sse, ndjson, trim, is_filled}
pub mod Cuts
pub mod Chunks

abbrev pub delimiter : Format → Text
delimiter sse = b'\n' ∷ b'\n' ∷ []
delimiter ndjson = b'\n' ∷ []

unfoldable pub starts_with : Text → Text → Bool
starts_with [] s = true
starts_with (c ∷ p) [] = false
starts_with (c ∷ p) (d ∷ s) = c == d && starts_with p s

abbrev pub before : ℕ → Option (Text × Text) → Option (Text × Text)
before c none = none
before c (some cut) = some (c ∷ cut.0, cut.1)

-- `indexOf(delimiter)` with the two slices: the text to the end of the first delimiter, and the rest.
unfoldable pub next_frame : Text → Text → Option (Text × Text)
unfolding starts_with
next_frame by [] = none
next_frame by (c ∷ s) =
    let later = before c (next_frame by s) in
    if starts_with by (c ∷ s) then some (by, drop (length by) (c ∷ s)) else later

abbrev pub after_cut : (Text → List Text × Text) → Text → Option (Text × Text) → List Text × Text
after_cut again buffer none = ([], buffer)
after_cut again buffer (some cut) = (cut.0 ∷ (again cut.1).0, (again cut.1).1)

-- The loop of `push`, with the texts it cuts off and what is left in the buffer. A turn takes at least
-- one unit off the buffer, whose length is the fuel.
unfoldable pub cut_frames : ℕ → Text → Text → List Text × Text
unfolding next_frame
cut_frames zero by buffer = ([], buffer)
cut_frames (suc fuel) by buffer =
    after_cut (λ rest. cut_frames fuel by rest) buffer (next_frame by buffer)

-- `raw.trim()` as a condition.
unfoldable pub has_content : Text → Bool
unfolding trim
has_content raw = is_filled (trim raw)

unfoldable pub push : Format → Text → Text → List Text × Text
unfolding cut_frames
push format text buffer =
    let cut = cut_frames (length (buffer ++ text)) (delimiter format) (buffer ++ text) in
    (filter has_content cut.0, cut.1)

unfoldable pub finish : Text → Text → List Text
finish text buffer = if has_content (buffer ++ text) then (buffer ++ text) ∷ [] else []

-- The frames of a response: those of each chunk in turn, then `end` with the decoder's last text.
unfoldable pub push_all : Format → List Text → Text → List Text × Text
unfolding push
push_all format [] buffer = ([], buffer)
push_all format (text ∷ texts) buffer =
    let here = push format text buffer in
    let rest = push_all format texts here.1 in (here.0 ++ rest.0, rest.1)

unfoldable pub frames_of : Format → List Text → Text → List Text
unfolding push_all finish
frames_of format texts last =
    let pushed = push_all format texts [] in pushed.0 ++ finish last pushed.1
