-- ===== src/Core/Transform/Layouts.antt =====
-- `transformString` on any detections: in whatever order they come, with those that do not act, and with
-- those that begin inside another one.
use haechi.Prelude.{
  ℕ, ◌+◌, ◌-◌, ◌≤◌, ◌≡◌, refl, sym, ap, ◌∙◌, subst, inl, inr, Bool, true, false, not, ◌&&◌,
  Bool-cases, Option, none, some, List, [], ◌∷◌, ◌++◌, arith, str_eq, ltb, leb, filter, length,
  length-take, length-drop, take, drop, take-append-drop, slice, map, All, Text,
}
use haechi.Prelude.Sort.{sort, sort-All}
use haechi.Core.{Detection}
use haechi.Core.Transform.{
  Item, Provider, World, replacement_for, rewrite_items, transform_string, ◌>>=◌,
}
use haechi.Core.Transform.Chunks.{
  Chunk, text_of, item_at, items_of, render, rewrite-render, render-output,
}

-- A chunk, and the detections after its own that begin before its end.
abbrev pub Placed : Type 0
Placed = Chunk × List Item

abbrev pub chunks_of : List Placed → List Chunk
chunks_of = map (λ p. p.0)

abbrev pub end_of : ℕ → Chunk → ℕ
end_of n c = n + length c.gap + length c.segment

unfoldable pub laid_out : ℕ → List Placed → List Item
laid_out n [] = []
laid_out n (p ∷ ps) = item_at n p.0 ∷ (p.1 ++ laid_out (end_of n p.0) ps)

abbrev pub AreBefore : ℕ → List Item → Type 0
AreBefore n items = All (λ i. ltb i.detection.start n ≡ true) items

abbrev pub AreInside : ℕ → List Placed → Type 0
AreInside n [] = Unit
AreInside n (p ∷ ps) = AreBefore (end_of n p.0) p.1 × AreInside (end_of n p.0) ps

-- A detection within a text of a length.
abbrev pub IsWithin : ℕ → Item → Type 0
IsWithin m i = (i.detection.start ≤ i.detection.end) × (i.detection.end ≤ m)

abbrev pub acts : Item → Bool
acts i = not (str_eq i.action "allow") && not (str_eq i.action "block")

abbrev pub comes_first : Item → Item → Bool
comes_first a b = leb a.detection.start b.detection.start

filter-All :
    (p : Item → Bool) (P : Item → Type 0) (items : List Item) → All P items → All P (filter p items)
filter-All p P [] h = tt
filter-All p P (i ∷ items) h = elim (Bool-cases (p i)) [
  | inl e ↦ rw e (h.0, filter-All p P items h.1)
  | inr e ↦ rw e (filter-All p P items h.1)
]

-- How a text and its detections in order lie from a position on.
record Layout (n : ℕ) (rest : Text) (items : List Item) : Type 0 where
  before : List Item
  placed : List Placed
  tail : Text
  all_items : items ≡ before ++ laid_out n placed
  are_before : AreBefore n before
  text : rest ≡ text_of (chunks_of placed) tail
  are_inside : AreInside n placed

placed_detection :
    (d : Detection) (s e : ℕ)
    → s ≡ d.start
    → e ≡ d.end
    → ◌≡◌ {A = Detection} (record d { start = s; end = e }) d
placed_detection d s e p q = rw (p, q) refl

-- The chunk of the first detection, in front of what follows it.
module _ (n : ℕ) (rest : Text) (i : Item) (ahead : ltb i.detection.start n ≡ false)
    (within : IsWithin (n + length rest) i) where
  first_gap : Text
  first_gap = take (i.detection.start - n) rest

  after_gap : Text
  after_gap = drop (i.detection.start - n) rest

  first_segment : Text
  first_segment = take (i.detection.end - i.detection.start) after_gap

  after_segment : Text
  after_segment = drop (i.detection.end - i.detection.start) after_gap

  first_chunk : Chunk
  first_chunk = record {
    gap = first_gap;
    segment = first_segment;
    detection = i.detection;
    action = i.action;
  }

  gap-end : n + length first_gap ≡ i.detection.start
  unfolding first_gap
  gap-end =
      let le : n ≤ i.detection.start = ground arith in
      omega (arith, within, le, length-take (i.detection.start - n) rest)

  segment-end : end_of n first_chunk ≡ i.detection.end
  unfolding first_chunk first_gap first_segment after_gap
  segment-end =
      let le : n ≤ i.detection.start = ground arith in
      omega (
        arith,
        within,
        le,
        gap-end,
        length-take (i.detection.end - i.detection.start) after_gap,
        length-drop (i.detection.start - n) rest,
      )

  rest-length : end_of n first_chunk + length after_segment ≡ n + length rest
  unfolding first_chunk first_gap first_segment after_segment after_gap
  rest-length =
      let le : n ≤ i.detection.start = ground arith in
      omega (
        arith,
        within,
        le,
        segment-end,
        length-drop (i.detection.end - i.detection.start) after_gap,
        length-drop (i.detection.start - n) rest,
      )

  first_item : item_at n first_chunk ≡ i
  unfolding first_chunk first_gap
  first_item =
      ap (λ d. record { detection = d; action = i.action })
        (placed_detection i.detection (n + length first_gap) (end_of n first_chunk) gap-end
          segment-end)

  first-Layout :
      {items : List Item}
      → Layout (end_of n first_chunk) after_segment items
      → Layout n rest (i ∷ items)
  unfolding laid_out text_of first_segment after_segment first_gap after_gap first_chunk
  first-Layout {items} l = record {
    before = [];
    placed = (first_chunk, l.before) ∷ l.placed;
    tail = l.tail;
    all_items =
        ap (λ x. x ∷ items) (sym first_item) ∙ ap (λ xs. item_at n first_chunk ∷ xs) l.all_items;
    are_before = tt;
    text =
        sym (take-append-drop (i.detection.start - n) rest)
        ∙ ap (λ x. first_gap ++ x)
            (sym (take-append-drop (i.detection.end - i.detection.start) after_gap)
              ∙ ap (λ x. first_segment ++ x) l.text);
    are_inside = (l.are_before, l.are_inside);
  }

layout :
    (n : ℕ) (rest : Text) (items : List Item)
    → All (IsWithin (n + length rest)) items
    → Layout n rest items
unfolding laid_out text_of
layout n rest [] h = record {
  before = [];
  placed = [];
  tail = rest;
  all_items = refl;
  are_before = tt;
  text = refl;
  are_inside = tt;
}
layout n rest (i ∷ items) h = elim (Bool-cases (ltb i.detection.start n)) [
  | inl e ↦
      let l = layout n rest items h.1 in
      record {
        before = i ∷ l.before;
        placed = l.placed;
        tail = l.tail;
        all_items = ap (λ xs. i ∷ xs) l.all_items;
        are_before = (e, l.are_before);
        text = l.text;
        are_inside = l.are_inside;
      }
  | inr e ↦ first-Layout n rest i e h.0 (
      layout (end_of n (first_chunk n rest i e h.0)) (after_segment n rest i e h.0) items
        (subst (λ m. All (IsWithin m) items) (sym (rest-length n rest i e h.0)) h.1))
]

none_before : (items : List Item) → AreBefore 0 items → items ≡ []
none_before [] h = refl
none_before (i ∷ items) h = let no : ltb i.detection.start 0 ≡ false = ground arith in cc (no, h.0)

module _ (provider : Provider) where
  bind-same :
      {A : Type 0} {B : Type 0} (o : Option A) (f g : A → Option B)
      → ((a : A) → f a ≡ g a)
      → o >>= f ≡ o >>= g
  bind-same none f g h = refl
  bind-same (some a) f g h = h a

  rewrite_items-before :
      (value output : Text) (n : ℕ) (before items : List Item) (w : World provider)
      → AreBefore n before
      → rewrite_items provider value n output (before ++ items) w
        ≡ rewrite_items provider value n output items w
  unfolding rewrite_items
  rewrite_items-before value output n [] items w h = refl
  rewrite_items-before value output n (i ∷ before) items w h =
      rw (h.0, rewrite_items) (rewrite_items-before value output n before items w h.1)

  -- The detections that begin inside another one are skipped.
  rewrite_items-laid_out :
      (value : Text) (n : ℕ) (ps : List Placed) (output : Text) (w : World provider)
      → AreInside n ps
      → rewrite_items provider value n output (laid_out n ps) w
        ≡ rewrite_items provider value n output (items_of n (chunks_of ps)) w
  unfolding rewrite_items laid_out items_of
  rewrite_items-laid_out value n [] output w h = refl
  rewrite_items-laid_out value n (p ∷ ps) output w h =
      let ahead : ltb (n + length p.0.gap) n ≡ false = ground arith in
      rw (ahead, rewrite_items)
        (bind-same
          (replacement_for provider (slice (n + length p.0.gap) (end_of n p.0) value)
            (item_at n p.0).detection p.0.action w)
          _ _
          (λ r.
            rewrite_items-before value _ (end_of n p.0) p.1 _ r.1 h.0
            ∙ rewrite_items-laid_out value (end_of n p.0) ps _ r.1 h.1))

  transform_string-laid_out :
      (value : Text) (items : List Item) (w : World provider)
      (l : Layout 0 value (sort comes_first (filter acts items)))
      → (sort comes_first (filter acts items) ≡ laid_out 0 l.placed)
        × (transform_string provider value items w
            ≡ render provider 0 (chunks_of l.placed) l.tail w)
  unfolding transform_string
  transform_string-laid_out value items w l =
      let order : sort comes_first (filter acts items) ≡ laid_out 0 l.placed =
        l.all_items ∙ ap (λ xs. xs ++ laid_out 0 l.placed) (none_before l.before l.are_before) in
      (
        order,
        ap (λ xs. rewrite_items provider value 0 [] xs w) order
            ∙ rewrite_items-laid_out value 0 l.placed [] w l.are_inside
            ∙ ap (λ t. rewrite_items provider t 0 [] (items_of 0 (chunks_of l.placed)) w) l.text
            ∙ rewrite-render provider [] [] 0 (chunks_of l.placed) l.tail w refl
            ∙ render-output provider (render provider 0 (chunks_of l.placed) l.tail w),
      )

  -- What a text and its detections are rewritten to: there is a layout of both, and the result is its own.
  abbrev pub IsRendered :
      Text → List Item → World provider → Option (Text × World provider) → Type 0
  IsRendered value items w result =
      (placed : List Placed) × (tail : Text) × (value ≡ text_of (chunks_of placed) tail)
      × (sort comes_first (filter acts items) ≡ laid_out 0 placed)
      × AreInside 0 placed
      × (result ≡ render provider 0 (chunks_of placed) tail w)

  -- A text with any detections within it, in any order, is cut into gaps and segments. Those detections whose
  -- action is neither `allow` nor `block`, stably sorted by their start, are one for each segment, at its
  -- place, and after each of them those that begin before its end, which are skipped. The gaps stay as they
  -- are, each segment is replaced by what its detection's action makes of it, in order, and if no
  -- replacement throws there is a result.
  pub transform_string-render :
      (value : Text) (items : List Item) (w : World provider)
      → All (IsWithin (length value)) items
      → IsRendered value items w (transform_string provider value items w)
  transform_string-render value items w h =
      let zero_add : length value ≡ 0 + length value = omega arith in
      let l = layout 0 value (sort comes_first (filter acts items)) (
        subst (λ m. All (IsWithin m) (sort comes_first (filter acts items))) zero_add
          (sort-All comes_first (IsWithin (length value)) (filter acts items)
            (filter-All acts (IsWithin (length value)) items h))) in
      let (order, result) = transform_string-laid_out value items w l in
      (l.placed, l.tail, l.text, order, l.are_inside, result)
