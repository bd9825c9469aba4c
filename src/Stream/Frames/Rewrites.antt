-- ===== src/Stream/Frames/Rewrites.antt =====
-- Which lines of a frame are written again: of its data lines only the new ones.
use haechi.Prelude.{
  ◌≡◌, ◌≢◌, refl, sym, ap, ◌∙◌, inl, inr, Bool, true, false, Bool-cases, not, some, List, [], ◌∷◌,
  ◌++◌, any, filter, map, All, Text, utf16, Json, append-nil,
}
use haechi.Stream.{sse, lines, unlines, stringify}
use haechi.Stream.Lines.{
  IsLine, lines-IsLine, lines-unlines, lines_some, All-append, filter_append, filter-All,
  filter_none,
}
use haechi.Stream.Stringify.{stringify-IsLine}
use haechi.Stream.Frames.{
  strip_blanks, strip_prefix, after_data, is_data_line, is_terminator, sse_data_payload,
  strip_newlines, substitute, with_data, serialize_frame, serialize_text_frame,
}

abbrev pub is_other_line : Text → Bool
unfolding is_data_line
is_other_line l = not (is_data_line l)

with_data-is_data_line : (l : Text) → is_data_line (with_data l) ≡ true
unfolding is_data_line after_data strip_blanks strip_prefix
with_data-is_data_line l = refl

with_data-payload :
    (l : Text) → any is_terminator l ≡ false → sse_data_payload (with_data l) ≡ some l
unfolding sse_data_payload after_data strip_blanks strip_prefix
with_data-payload l h = rw h refl

-- Both kinds of line of what a client reads: the data lines are the new ones, and the others those of
-- the frame before the two that end it.
abbrev pub Rewritten : List Text → Text → Text → Type 0
unfolding lines
Rewritten new raw out =
    (filter is_data_line (lines out) ≡ new)
    × (filter is_other_line (lines out)
        ≡ filter is_other_line (lines (strip_newlines raw)) ++ [] ∷ [] ∷ [])

-- The new lines: there is one, each is a data line, and none has a newline.
record AreNew (new : List Text) : Type 0 where
  pub data_lines : All (λ l. is_data_line l ≡ true) new
  pub not_other : All (λ l. is_other_line l ≡ false) new
  pub are_lines : All IsLine new

module _ (new : List Text) (good : AreNew new) where
  substitute_written_data : (ls : List Text) → filter is_data_line (substitute new true ls) ≡ []
  unfolding substitute
  substitute_written_data [] = refl
  substitute_written_data (l ∷ ls) = elim (Bool-cases (is_data_line l)) [
    | inl e ↦ rw e (substitute_written_data ls)
    | inr e ↦ rw (e, e) (substitute_written_data ls)
  ]

  substitute_written_other :
      (ls : List Text) → filter is_other_line (substitute new true ls) ≡ filter is_other_line ls
  unfolding substitute is_other_line
  substitute_written_other [] = refl
  substitute_written_other (l ∷ ls) = elim (Bool-cases (is_data_line l)) [
    | inl e ↦ rw e (substitute_written_other ls)
    | inr e ↦ rw (e, e) (ap (λ x. l ∷ x) (substitute_written_other ls))
  ]

  -- The data lines are the new ones, in one block; the other lines are the frame's.
  substitute_data : (ls : List Text) → filter is_data_line (substitute new false ls) ≡ new
  unfolding substitute
  substitute_data [] =
      sym (ap (filter is_data_line) (append-nil new))
      ∙ filter-All is_data_line new [] good.data_lines
      ∙ append-nil new
  substitute_data (l ∷ ls) = elim (Bool-cases (is_data_line l)) [
    | inl e ↦ rw e (
        filter-All is_data_line new (substitute new true ls) good.data_lines
        ∙ ap (λ x. new ++ x) (substitute_written_data ls)
        ∙ append-nil new)
    | inr e ↦ rw (e, e) (substitute_data ls)
  ]

  substitute_other :
      (ls : List Text) → filter is_other_line (substitute new false ls) ≡ filter is_other_line ls
  unfolding substitute is_other_line
  substitute_other [] =
      sym (ap (filter is_other_line) (append-nil new))
      ∙ filter_none is_other_line new [] good.not_other
  substitute_other (l ∷ ls) = elim (Bool-cases (is_data_line l)) [
    | inl e ↦ rw e (
        filter_none is_other_line new (substitute new true ls) good.not_other
        ∙ substitute_written_other ls)
    | inr e ↦ rw (e, e) (ap (λ x. l ∷ x) (substitute_other ls))
  ]

  substitute-IsLine :
      (written : Bool) (ls : List Text) → All IsLine ls → All IsLine (substitute new written ls)
  unfolding substitute
  substitute-IsLine true [] h = tt
  substitute-IsLine false [] h = good.are_lines
  substitute-IsLine true (l ∷ ls) h = elim (Bool-cases (is_data_line l)) [
    | inl e ↦ rw e (substitute-IsLine true ls h.1)
    | inr e ↦ rw e (h.0, substitute-IsLine true ls h.1)
  ]
  substitute-IsLine false (l ∷ ls) h = elim (Bool-cases (is_data_line l)) [
    | inl e ↦ rw e (
        All-append IsLine new (substitute new true ls) good.are_lines
          (substitute-IsLine true ls h.1))
    | inr e ↦ rw e (h.0, substitute-IsLine false ls h.1)
  ]

  -- The lines that a client reads of a frame written with the new lines.
  written_lines :
      (raw : Text) (n : Text) (ns : List Text)
      → new ≡ n ∷ ns
      → lines (unlines (substitute new false (lines (strip_newlines raw))) ++ utf16 "\n\n")
        ≡ substitute new false (lines (strip_newlines raw)) ++ [] ∷ [] ∷ []
  unfolding lines
  written_lines raw n ns e =
      on_lines (substitute new false (lines (strip_newlines raw)))
        (substitute-IsLine false (lines (strip_newlines raw)) (lines-IsLine (strip_newlines raw)))
        (λ z. clash (
          ap (λ xs. filter is_data_line xs) (sym z)
          ∙ substitute_data (lines (strip_newlines raw))
          ∙ e))
    where
      clash : {x : Text} {xs : List Text} → ◌≡◌ {A = List Text} [] (x ∷ xs) → ⊥
      clash e = cc

      on_lines :
          (ls : List Text)
          → All IsLine ls
          → ls ≢ []
          → lines (unlines ls ++ utf16 "\n\n") ≡ ls ++ [] ∷ [] ∷ []
      on_lines [] h k = absurd (k refl)
      on_lines (l ∷ ls) h k = lines-unlines l ls (b'\n' ∷ []) h

  written-Rewritten :
      (raw : Text) (n : Text) (ns : List Text)
      → new ≡ n ∷ ns
      → Rewritten new raw
          (unlines (substitute new false (lines (strip_newlines raw))) ++ utf16 "\n\n")
  unfolding Rewritten is_other_line
  written-Rewritten raw n ns e =
      let ls = substitute new false (lines (strip_newlines raw)) in
      rw (written_lines raw n ns e) (
        filter_append is_data_line ls ([] ∷ [] ∷ [])
            ∙ append-nil (filter is_data_line ls)
            ∙ substitute_data (lines (strip_newlines raw)),
        filter_append is_other_line ls ([] ∷ [] ∷ [])
            ∙ ap (λ xs. xs ++ [] ∷ [] ∷ []) (substitute_other (lines (strip_newlines raw))),
      )

map_new : (ls : List Text) → All IsLine ls → AreNew (map with_data ls)
unfolding is_other_line
map_new [] h = record { data_lines = tt; not_other = tt; are_lines = tt }
map_new (l ∷ ls) h =
    let rest = map_new ls h.1 in
    record {
      data_lines = (with_data-is_data_line l, rest.data_lines);
      not_other = (ap not (with_data-is_data_line l), rest.not_other);
      are_lines = (h.0, rest.are_lines);
    }

-- A server-sent event that is written again for a text, or for a JSON value, has none of the original's
-- lines that the writer's pattern takes for data lines, which allows spaces and tabs in front: those of its
-- lines that this pattern takes for data lines are the ones of the text, or the one of the value, and its
-- other lines are the original's in their order.
pub serialize-Rewritten :
    (raw text : Text) (v : Json)
    → Rewritten (map with_data (lines text)) raw (serialize_text_frame text sse (some raw))
      × Rewritten (with_data (stringify v) ∷ []) raw (serialize_frame v sse (some raw))
unfolding serialize_text_frame serialize_frame
serialize-Rewritten raw text v =
    let l = lines_some text in
    (
      written-Rewritten (map with_data (lines text)) (map_new (lines text) (lines-IsLine text)) raw
          (with_data l.0) (map with_data l.1) (ap (λ ls. map with_data ls) l.2),
      written-Rewritten (map with_data (stringify v ∷ []))
          (map_new (stringify v ∷ []) (stringify-IsLine v, tt)) raw (with_data (stringify v)) []
          refl,
    )
