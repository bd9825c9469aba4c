-- ===== src/Core/Transform/Redaction.antt =====
-- What redaction hides.
use haechi.Prelude.{ℕ, ◌+◌, String, ◌≡◌, refl, sym, ◌∙◌, some, List, [], ◌∷◌, length, Text, utf16}
use haechi.Core.{Detection}
use haechi.Core.Transform.{Provider, World, bracketed, replacement_for, transform_string}
use haechi.Core.Transform.Chunks.{
  Chunk, text_of, item_at, items_of, AreActionable, render, transform_string-chunks,
}

module _ (provider : Provider) where
  abbrev pub Redacts : Chunk → Chunk → Type 0
  Redacts c d =
      (c.gap ≡ d.gap)
      × (length c.segment ≡ length d.segment)
      × (c.detection.type ≡ d.detection.type)
      × (c.action ≡ "redact")
      × (d.action ≡ "redact")

  abbrev pub RedactAlike : List Chunk → List Chunk → Type 0
  RedactAlike [] [] = Unit
  RedactAlike (c ∷ cs) (d ∷ ds) = Redacts c d × RedactAlike cs ds
  RedactAlike [] (_ ∷ _) = ⊥
  RedactAlike (_ ∷ _) [] = ⊥

  redacted :
      (segment : Text) (d : Detection) (action : String) (w : World provider)
      → action ≡ "redact"
      → replacement_for provider segment d action w
        ≡ some (bracketed provider "[REDACTED:" (utf16 d.type), w)
  unfolding replacement_for
  redacted segment d action w e = rw e refl

  render-RedactAlike :
      (n m : ℕ) (cs ds : List Chunk) (tail : Text) (w : World provider)
      → RedactAlike cs ds
      → render provider n cs tail w ≡ render provider m ds tail w
  unfolding render
  render-RedactAlike n m [] [] tail w h = refl
  render-RedactAlike n m [] (_ ∷ _) tail w h = absurd h
  render-RedactAlike n m (_ ∷ _) [] tail w h = absurd h
  render-RedactAlike n m (c ∷ cs) (d ∷ ds) tail w ((gap, len, type, rc, rd), h) =
      rw
        (
          redacted c.segment (item_at n c).detection c.action w rc,
          redacted d.segment (item_at m d).detection d.action w rd,
          render-RedactAlike (n + length c.gap + length c.segment)
              (m + length d.gap + length d.segment) cs ds tail w h,
          gap,
          type,
        )
        refl

  redact-actionable : (cs ds : List Chunk) → RedactAlike cs ds → AreActionable cs × AreActionable ds
  redact-actionable [] [] h = (tt, tt)
  redact-actionable [] (_ ∷ _) h = absurd h
  redact-actionable (_ ∷ _) [] h = absurd h
  redact-actionable (c ∷ cs) (d ∷ ds) ((_, _, _, rc, rd), h) =
      let (hc, hd) = redact-actionable cs ds h in
      ((rw rc (refl, refl), hc), (rw rd (refl, refl), hd))

  -- Redaction hides: two texts that agree but for what their redacted segments hold, at the same
  -- places, have one and the same result.
  pub transform_string_redacts :
      (cs ds : List Chunk) (tail : Text) (w : World provider)
      → RedactAlike cs ds
      → transform_string provider (text_of cs tail) (items_of 0 cs) w
        ≡ transform_string provider (text_of ds tail) (items_of 0 ds) w
  transform_string_redacts cs ds tail w h =
      let (hc, hd) = redact-actionable cs ds h in
      transform_string-chunks provider cs tail w hc
      ∙ render-RedactAlike 0 0 cs ds tail w h
      ∙ sym (transform_string-chunks provider ds tail w hd)
