-- ===== src/Core/Transform/Chunks.antt =====
-- The rewritten text, chunk by chunk: a text given as gaps and segments, with the detections at the
-- places of the segments, is rewritten segment by segment and keeps its gaps.
use haechi.Prelude.{
  ℕ, ◌+◌, ◌≤◌, String, ◌≡◌, refl, sym, ap, ◌∙◌, subst, true, false, Option, none, some, List, [],
  ◌∷◌, ◌++◌, append_assoc, arith, str_eq, ltb, le→leb, filter, length, length-append, slice,
  drop-append, slice-append, All, Text,
}
use haechi.Prelude.Sort.{IsSorted, sort_of_IsSorted}
use haechi.Core.{Detection}
use haechi.Core.Transform.{
  Item, Provider, World, is_actionable, starts_before, replacement_for, rewrite_items,
  transform_string, ◌>>=◌,
}

-- Text that no detection covers, then a segment with its detection and action.
pub record Chunk : Type 0 where
  pub gap : Text
  pub segment : Text
  pub detection : Detection
  pub action : String

-- The text that the chunks make up, and the items of their segments from position `n` on.
unfoldable pub text_of : List Chunk → Text → Text
text_of [] tail = tail
text_of (c ∷ cs) tail = c.gap ++ (c.segment ++ text_of cs tail)

abbrev pub item_at : ℕ → Chunk → Item
item_at n c = record {
  detection = record (c.detection) {
    start = n + length c.gap;
    end = n + length c.gap + length c.segment;
  };
  action = c.action;
}

unfoldable pub items_of : ℕ → List Chunk → List Item
items_of n [] = []
items_of n (c ∷ cs) = item_at n c ∷ items_of (n + length c.gap + length c.segment) cs

abbrev pub AreActionable : List Chunk → Type 0
AreActionable cs =
    All (λ c. (str_eq c.action "allow" ≡ false) × (str_eq c.action "block" ≡ false)) cs

abbrev StartsFrom : ℕ → List Item → Type 0
StartsFrom n items = All (λ i. n ≤ i.detection.start) items

StartsFrom-mono : (n m : ℕ) (items : List Item) → n ≤ m → StartsFrom m items → StartsFrom n items
StartsFrom-mono n m [] h s = tt
StartsFrom-mono n m (i ∷ items) h s = (omega (arith, s.0), StartsFrom-mono n m items h s.1)

items_of-StartsFrom : (n : ℕ) (cs : List Chunk) → StartsFrom n (items_of n cs)
unfolding items_of
items_of-StartsFrom n [] = tt
items_of-StartsFrom n (c ∷ cs) = (
  omega arith,
  StartsFrom-mono n (n + length c.gap + length c.segment) _ (omega arith)
      (items_of-StartsFrom (n + length c.gap + length c.segment) cs),
)

starts_before-All :
    (i : Item) (m : ℕ) (items : List Item)
    → i.detection.start ≤ m
    → StartsFrom m items
    → All (λ j. starts_before i j ≡ true) items
starts_before-All i m [] h s = tt
starts_before-All i m (j ∷ items) h s =
    (le→leb _ _ (omega (arith, s.0)), starts_before-All i m items h s.1)

items_of-IsSorted : (n : ℕ) (cs : List Chunk) → IsSorted starts_before (items_of n cs)
unfolding items_of
items_of-IsSorted n [] = tt
items_of-IsSorted n (c ∷ cs) = (
  starts_before-All (item_at n c) (n + length c.gap + length c.segment) _ (omega arith)
      (items_of-StartsFrom (n + length c.gap + length c.segment) cs),
  items_of-IsSorted (n + length c.gap + length c.segment) cs,
)

filter-items_of :
    (n : ℕ) (cs : List Chunk)
    → AreActionable cs
    → filter is_actionable (items_of n cs) ≡ items_of n cs
unfolding items_of
filter-items_of n [] h = refl
filter-items_of n (c ∷ cs) h =
    rw (h.0.0, h.0.1)
      (ap (◌∷◌ (item_at n c)) (filter-items_of (n + length c.gap + length c.segment) cs h.1))

module _ (provider : Provider) where
  -- What the chunks are rewritten to: each gap as it is, each segment by its replacement, made in
  -- order from the states that the earlier ones left.
  unfoldable pub render : ℕ → List Chunk → Text → World provider → Option (Text × World provider)
  render n [] tail w = some (tail, w)
  render n (c ∷ cs) tail w = do
    r ← replacement_for provider c.segment (item_at n c).detection c.action w
    rest ← render (n + length c.gap + length c.segment) cs tail r.1
    some (c.gap ++ (r.0 ++ rest.0), rest.1)

  abbrev after_output : Text → Option (Text × World provider) → Option (Text × World provider)
  after_output output none = none
  after_output output (some r) = some (output ++ r.0, r.1)

  rewrite_items-step :
      (value output gap segment : Text) (cursor : ℕ) (i : Item) (items : List Item)
      (w : World provider)
      → cursor ≤ i.detection.start
      → slice cursor i.detection.start value ≡ gap
      → slice i.detection.start i.detection.end value ≡ segment
      → rewrite_items provider value cursor output (i ∷ items) w ≡ (
          replacement_for provider segment i.detection i.action w >>= λ r.
          rewrite_items provider value i.detection.end ((output ++ gap) ++ r.0) items r.1)
  unfolding rewrite_items
  rewrite_items-step value output gap segment cursor i items w le eg es =
      let ahead : ltb i.detection.start cursor ≡ false = ground arith in
      rw (ahead, rewrite_items) (rw (eg, es) refl)

  -- The rest of the text, where a chunk has been rewritten.
  after_output-chunk :
      (output gap r : Text) (rest : Option (Text × World provider))
      → after_output ((output ++ gap) ++ r) rest
        ≡ after_output output (rest >>= λ t. some (gap ++ (r ++ t.0), t.1))
  after_output-chunk output gap r none = refl
  after_output-chunk output gap r (some t) =
      rw (append_assoc (output ++ gap) r t.0, append_assoc output gap (r ++ t.0)) refl

  pub rewrite-render :
      (before output : Text) (n : ℕ) (cs : List Chunk) (tail : Text) (w : World provider)
      → n ≡ length before
      → rewrite_items provider (before ++ text_of cs tail) n output (items_of n cs) w
        ≡ after_output output (render n cs tail w)
  unfolding rewrite_items render text_of items_of
  rewrite-render before output n [] tail w e = rw (e, drop-append before tail) refl
  rewrite-render before output n (c ∷ cs) tail w e =
      let g = length c.gap in
      let rest = c.segment ++ text_of cs tail in
      let m = n + g + length c.segment in
      let at_gap : slice n (n + g) (before ++ (c.gap ++ rest)) ≡ c.gap =
        rw e (slice-append before c.gap rest) in
      let start : n + g ≡ length (before ++ c.gap) = omega (arith, length-append before c.gap) in
      let at_segment : slice (n + g) m (before ++ (c.gap ++ rest)) ≡ c.segment =
        rw (← append_assoc before c.gap rest, start)
          (slice-append (before ++ c.gap) c.segment (text_of cs tail)) in
      let text : before ++ (c.gap ++ rest) ≡ (before ++ (c.gap ++ c.segment)) ++ text_of cs tail =
        sym (
          append_assoc before (c.gap ++ c.segment) (text_of cs tail)
          ∙ ap (◌++◌ before) (append_assoc c.gap c.segment (text_of cs tail))) in
      let stop : m ≡ length (before ++ (c.gap ++ c.segment)) =
        omega (arith, length-append before (c.gap ++ c.segment), length-append c.gap c.segment) in
      let again = λ (r : Text × World provider).
        subst
          (λ t.
            rewrite_items provider t m ((output ++ c.gap) ++ r.0) (items_of m cs) r.1
            ≡ after_output ((output ++ c.gap) ++ r.0) (render m cs tail r.1))
          (sym text)
          (rewrite-render (before ++ (c.gap ++ c.segment)) ((output ++ c.gap) ++ r.0) m cs tail r.1
            stop) in
      rewrite_items-step (before ++ (c.gap ++ rest)) output c.gap c.segment n (item_at n c)
        (items_of m cs) w (omega arith) at_gap at_segment
      ∙ chunk again (replacement_for provider c.segment (item_at n c).detection c.action w)
    where
      chunk :
          ((r : Text × World provider)
            → rewrite_items provider
                (before ++ (c.gap ++ (c.segment ++ text_of cs tail)))
                (n + length c.gap + length c.segment)
                ((output ++ c.gap) ++ r.0)
                (items_of (n + length c.gap + length c.segment) cs)
                r.1
              ≡ after_output
                  ((output ++ c.gap) ++ r.0)
                  (render (n + length c.gap + length c.segment) cs tail r.1))
          → (o : Option (Text × World provider))
          → (o >>= λ r.
              rewrite_items provider
                (before ++ (c.gap ++ (c.segment ++ text_of cs tail)))
                (n + length c.gap + length c.segment)
                ((output ++ c.gap) ++ r.0)
                (items_of (n + length c.gap + length c.segment) cs)
                r.1)
            ≡ after_output output (
                o >>= λ r. render (n + length c.gap + length c.segment) cs tail r.1 >>= λ rest.
                some (c.gap ++ (r.0 ++ rest.0), rest.1))
      chunk again none = refl
      chunk again (some r) = again r ∙ after_output-chunk output c.gap r.0 _

  pub render-output : (o : Option (Text × World provider)) → after_output [] o ≡ o
  render-output none = refl
  render-output (some r) = refl

  -- A text with detections that do not overlap is rewritten exactly at them: the gaps between them
  -- stay as they are, each detected segment is replaced by what its action makes of it, in order,
  -- and if no replacement throws there is a result.
  pub transform_string-chunks :
      (cs : List Chunk) (tail : Text) (w : World provider)
      → AreActionable cs
      → transform_string provider (text_of cs tail) (items_of 0 cs) w ≡ render 0 cs tail w
  unfolding transform_string
  transform_string-chunks cs tail w h =
      rw
        (
          filter-items_of 0 cs h,
          sort_of_IsSorted starts_before (items_of 0 cs) (items_of-IsSorted 0 cs),
        )
        (rewrite-render [] [] 0 cs tail w refl ∙ render-output (render 0 cs tail w))
