-- ===== src/Stream/Splitter/Chunks.antt =====
-- The frames of a response: every part of it with content, and the same however the network cut it.
use haechi.Prelude.{
  ◌≤◌, ◌<◌, ◌≡◌, refl, sym, ap, ◌∙◌, inl, inr, Bool, Bool-cases, none, List, [], ◌∷◌, ◌++◌, arith,
  length, length-append, append_assoc, append-nil, filter, Text,
}
use haechi.Stream.{Format, sse, ndjson, concat}
use haechi.Stream.Splitter.{
  delimiter, cut_frames, next_frame, has_content, push, finish, push_all, frames_of,
}
use haechi.Stream.Splitter.Cuts.{
  cut_frames-fuel, cut_frames_whole, rest_short, rest_none, cut_frames-append, cut_frames-none,
}

module _ {ℓ} {A : Type ℓ} (test : A → Bool) where
  filter-append : (xs ys : List A) → filter test (xs ++ ys) ≡ filter test xs ++ filter test ys
  filter-append [] ys = refl
  filter-append (x ∷ xs) ys = elim (Bool-cases (test x)) [
    | inl e ↦ rw e (ap (λ zs. x ∷ zs) (filter-append xs ys))
    | inr e ↦ rw e (filter-append xs ys)
  ]

concat-append : (ss ts : List Text) → concat (ss ++ ts) ≡ concat ss ++ concat ts
concat-append [] ts = refl
concat-append (s ∷ ss) ts =
    ap (λ x. s ++ x) (concat-append ss ts) ∙ sym (append_assoc s (concat ss) (concat ts))

delimiter_filled : (f : Format) → 0 < length (delimiter f)
delimiter_filled sse = omega arith
delimiter_filled ndjson = omega arith

abbrev cuts : Format → Text → List Text × Text
unfolding cut_frames
cuts f b = cut_frames (length b) (delimiter f) b

cuts-append :
    (f : Format) (b t : Text)
    → cuts f (b ++ t)
      ≡ ((cuts f b).0 ++ (cuts f ((cuts f b).1 ++ t)).0, (cuts f ((cuts f b).1 ++ t)).1)
unfolding cuts cut_frames
cuts-append f b t =
    let by = delimiter f in
    let filled = delimiter_filled f in
    let rest = (cut_frames (length b) by b).1 ++ t in
    let short : length rest ≤ length (b ++ t) = omega (
      arith,
      rest_short by filled (length b) b,
      length-append b t,
      length-append (cut_frames (length b) by b).1 t,
    ) in
    cut_frames-append by filled (length b) (length (b ++ t)) b t (omega arith)
    ∙ ap (λ g. ((cut_frames (length b) by b).0 ++ g.0, g.1))
        (cut_frames-fuel by filled (length (b ++ t)) (length rest) rest short (omega arith))

-- What is pushed in parts is cut as if it was pushed at once.
push_all-cuts :
    (f : Format) (texts : List Text) (buffer : Text)
    → next_frame (delimiter f) buffer ≡ none
    → push_all f texts buffer ≡ (
      filter has_content (cuts f (buffer ++ concat texts)).0,
      (cuts f (buffer ++ concat texts)).1,
    )
unfolding push_all push
push_all-cuts f [] buffer h =
    rw
      (
        append-nil buffer,
        cut_frames-none (delimiter f) (delimiter_filled f) (length buffer) buffer h,
      )
      refl
push_all-cuts f (t ∷ ts) buffer h =
    let here = cuts f (buffer ++ t) in
    let settled =
      rest_none (delimiter f) (delimiter_filled f) (length (buffer ++ t)) (buffer ++ t)
        (omega arith) in
    ap (λ g. (filter has_content here.0 ++ g.0, g.1)) (push_all-cuts f ts here.1 settled)
    ∙ ap (λ xs. (xs, (cuts f (here.1 ++ concat ts)).1))
        (sym (filter-append has_content here.0 (cuts f (here.1 ++ concat ts)).0))
    ∙ ap (λ g. (filter has_content g.0, g.1)) (sym (cuts-append f (buffer ++ t) (concat ts)))
    ∙ ap (λ b. (filter has_content (cuts f b).0, (cuts f b).1)) (append_assoc buffer t (concat ts))

frames_of-cuts :
    (f : Format) (texts : List Text) (last : Text)
    → frames_of f texts last
      ≡ filter has_content (cuts f (concat texts)).0 ++ finish last (cuts f (concat texts)).1
unfolding frames_of
frames_of-cuts f texts last = ap (λ g. g.0 ++ finish last g.1) (push_all-cuts f texts [] (start f))
  where
    start : (f : Format) → next_frame (delimiter f) [] ≡ none
    start f = refl

-- The frames that are handled do not depend on the chunks: two ways to cut one response give the same
-- frames, where a delimiter falls on a boundary too.
pub frames_of-concat :
    (f : Format) (texts others : List Text) (last : Text)
    → concat texts ≡ concat others
    → frames_of f texts last ≡ frames_of f others last
frames_of-concat f texts others last h =
    frames_of-cuts f texts last
    ∙ ap (λ s. filter has_content (cuts f s).0 ++ finish last (cuts f s).1) h
    ∙ sym (frames_of-cuts f others last)

-- Nothing of a response escapes: it is a sequence of pieces whose concatenation is the whole response, and
-- the frames handled are the pieces, in order, that are not only white space.
pub frames_of-pieces :
    (f : Format) (texts : List Text) (last : Text)
    → (pieces : List Text) × (concat pieces ≡ concat texts ++ last)
      × (frames_of f texts last ≡ filter has_content pieces)
unfolding finish cuts cut_frames
frames_of-pieces f texts last =
    let c = cuts f (concat texts) in
    (
      c.0 ++ (c.1 ++ last) ∷ [],
      concat-append c.0 ((c.1 ++ last) ∷ [])
          ∙ ap (λ s. concat c.0 ++ s) (append-nil (c.1 ++ last))
          ∙ sym (append_assoc (concat c.0) c.1 last)
          ∙ ap (λ s. s ++ last)
              (cut_frames_whole (delimiter f) (delimiter_filled f) (length (concat texts))
                (concat texts)),
      frames_of-cuts f texts last ∙ sym (filter-append has_content c.0 ((c.1 ++ last) ∷ [])),
    )
