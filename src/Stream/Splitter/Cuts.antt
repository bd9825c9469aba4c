-- ===== src/Stream/Splitter/Cuts.antt =====
-- Cutting a buffer at its delimiters.
use haechi.Prelude.{
  ℕ, zero, suc, ◌≤◌, ◌<◌, ◌≡◌, refl, sym, ap, ◌∙◌, subst, inl, inr, true, false, Bool-cases, Option,
  none, some, Option-cases, [], ◌∷◌, ◌++◌, arith, length, length-append, append_assoc, drop, Text,
}
use haechi.Stream.{concat}
use haechi.Stream.Splitter.{starts_with, before, next_frame, cut_frames}

starts_with-append : (p s t : Text) → starts_with p s ≡ true → starts_with p (s ++ t) ≡ true
unfolding starts_with
starts_with-append [] s t h = refl
starts_with-append (c ∷ p) [] t h = cc
starts_with-append (c ∷ p) (d ∷ s) t h = ground (arith, starts_with-append p s t)

-- A prefix that only the longer text has is longer than the shorter one.
starts_with_short :
    (p s t : Text) → starts_with p s ≡ false → starts_with p (s ++ t) ≡ true → length s < length p
unfolding starts_with
starts_with_short [] s t h k = cc
starts_with_short (c ∷ p) [] t h k = omega arith
starts_with_short (c ∷ p) (d ∷ s) t h k = ground (arith, starts_with_short p s t)

starts_with_long : (p s : Text) → starts_with p s ≡ true → length p ≤ length s
unfolding starts_with
starts_with_long [] s h = omega arith
starts_with_long (c ∷ p) [] h = cc
starts_with_long (c ∷ p) (d ∷ s) h = ground (arith, starts_with_long p s)

drop_prefix :
    (p s t : Text) → starts_with p s ≡ true → drop (length p) (s ++ t) ≡ drop (length p) s ++ t
unfolding starts_with
drop_prefix [] s t h = refl
drop_prefix (c ∷ p) [] t h = cc
drop_prefix (c ∷ p) (d ∷ s) t h = ground (arith, drop_prefix p s t)

prefix_drop : (p s : Text) → starts_with p s ≡ true → p ++ drop (length p) s ≡ s
unfolding starts_with
prefix_drop [] s h = refl
prefix_drop (c ∷ p) [] h = cc
prefix_drop (c ∷ p) (d ∷ s) h = ground (arith, prefix_drop p s)

-- What a cut is: the two parts of the buffer, of which the first holds the delimiter.
record Cut (by buffer : Text) (cut : Text × Text) : Type 0 where
  pub whole : cut.0 ++ cut.1 ≡ buffer
  pub long : length by ≤ length cut.0

same_some : {a b : Text × Text} → ◌≡◌ {A = Option (Text × Text)} (some a) (some b) → a ≡ b
same_some e = cc

before_cases :
    (c : ℕ) (o : Option (Text × Text)) (cut : Text × Text)
    → before c o ≡ some cut
    → (inner : Text × Text) × (o ≡ some inner) × (cut ≡ (c ∷ inner.0, inner.1))
before_cases c none cut h = cc
before_cases c (some inner) cut h = (inner, refl, sym (same_some h))

next_frame-Cut :
    (by buffer : Text) (cut : Text × Text) → next_frame by buffer ≡ some cut → Cut by buffer cut
unfolding next_frame
next_frame-Cut by [] cut h = cc
next_frame-Cut by (c ∷ s) cut h = elim (Bool-cases (starts_with by (c ∷ s))) [
  | inl e ↦
      let same : (by, drop (length by) (c ∷ s)) ≡ cut = same_some ((sym (rw e)) ∙ h) in
      subst (Cut by (c ∷ s)) same record { whole = prefix_drop by (c ∷ s) e; long = omega arith }
  | inr e ↦
      let inner = before_cases c (next_frame by s) cut (sym (rw e) ∙ h) in
      let found = next_frame-Cut by s inner.0 inner.1 in
      subst (Cut by (c ∷ s)) (sym inner.2)
        record { whole = ap (◌∷◌ c) found.whole; long = omega (arith, found.long) }
]

next_frame-append :
    (by buffer t : Text) (cut : Text × Text)
    → next_frame by buffer ≡ some cut
    → next_frame by (buffer ++ t) ≡ some (cut.0, cut.1 ++ t)
unfolding next_frame
next_frame-append by [] t cut h = cc
next_frame-append by (c ∷ s) t cut h = elim (Bool-cases (starts_with by (c ∷ s))) [
  | inl e ↦
      let same : (by, drop (length by) (c ∷ s)) ≡ cut = same_some ((sym (rw e)) ∙ h) in
      rw (starts_with-append by (c ∷ s) t e)
        (ap (λ r. some (by, r)) (drop_prefix by (c ∷ s) t e) ∙ ap (λ x. some (x.0, x.1 ++ t)) same)
  | inr e ↦
      let inner = before_cases c (next_frame by s) cut (sym (rw e) ∙ h) in
      let found = next_frame-Cut by s inner.0 inner.1 in
      elim (Bool-cases (starts_with by (c ∷ (s ++ t)))) [
        | inl f ↦ absurd (
            omega (
              arith,
              starts_with_short by (c ∷ s) t e f,
              found.long,
              sym (length-append inner.0.0 inner.0.1) ∙ ap length found.whole,
            ))
        | inr f ↦
            rw (f, next_frame-append by s t inner.0 inner.1)
              (ap (λ x. some (x.0, x.1 ++ t)) (sym inner.2))
      ]
]

module _ (by : Text) (filled : 0 < length by) where
  shorter :
      (buffer : Text) (cut : Text × Text)
      → next_frame by buffer ≡ some cut
      → length cut.1 < length buffer
  shorter buffer cut h =
      let c = next_frame-Cut by buffer cut h in
      omega (arith, c.long, sym (length-append cut.0 cut.1) ∙ ap length c.whole)

  pub cut_frames-none : (n : ℕ) (b : Text) → next_frame by b ≡ none → cut_frames n by b ≡ ([], b)
  unfolding cut_frames
  cut_frames-none zero b h = refl
  cut_frames-none (suc n) b h = rw h refl

  cut_frames-some :
      (n : ℕ) (b : Text) (cut : Text × Text)
      → next_frame by b ≡ some cut
      → cut_frames (suc n) by b ≡ (cut.0 ∷ (cut_frames n by cut.1).0, (cut_frames n by cut.1).1)
  unfolding cut_frames
  cut_frames-some n b cut h = rw h refl

  empty_none : (b : Text) → length b ≤ 0 → next_frame by b ≡ none
  unfolding next_frame
  empty_none [] l = refl
  empty_none (c ∷ b) l = absurd (omega arith)

  -- Any fuel from the buffer's length on gives the same frames.
  pub cut_frames-fuel :
      (n m : ℕ) (b : Text) → length b ≤ n → length b ≤ m → cut_frames n by b ≡ cut_frames m by b
  unfolding cut_frames
  cut_frames-fuel zero m b l k = sym (cut_frames-none m b (empty_none b l))
  cut_frames-fuel (suc n) zero b l k = cut_frames-none (suc n) b (empty_none b k)
  cut_frames-fuel (suc n) (suc m) b l k = elim (Option-cases (next_frame by b)) [
    | inl e ↦ cut_frames-none (suc n) b e ∙ sym (cut_frames-none (suc m) b e)
    | inr e ↦
        let same =
          cut_frames-fuel n m e.0.1 (omega (arith, shorter b e.0 e.1))
            (omega (arith, shorter b e.0 e.1)) in
        cut_frames-some n b e.0 e.1
        ∙ ap (λ f. (e.0.0 ∷ f.0, f.1)) same
        ∙ sym (cut_frames-some m b e.0 e.1)
  ]

  -- The cut texts and the rest are the buffer.
  pub cut_frames_whole :
      (n : ℕ) (b : Text) → concat (cut_frames n by b).0 ++ (cut_frames n by b).1 ≡ b
  unfolding cut_frames
  cut_frames_whole zero b = refl
  cut_frames_whole (suc n) b = elim (Option-cases (next_frame by b)) [
    | inl e ↦ rw e refl
    | inr e ↦ rw e.1 (
        append_assoc e.0.0 (concat (cut_frames n by e.0.1).0) (cut_frames n by e.0.1).1
        ∙ ap (λ s. e.0.0 ++ s) (cut_frames_whole n e.0.1)
        ∙ (next_frame-Cut by b e.0 e.1).whole)
  ]

  pub rest_short : (n : ℕ) (b : Text) → length (cut_frames n by b).1 ≤ length b
  rest_short n b = omega (
    arith,
    sym (length-append (concat (cut_frames n by b).0) (cut_frames n by b).1)
        ∙ ap length (cut_frames_whole n b),
  )

  -- With enough fuel the rest holds no delimiter.
  pub rest_none : (n : ℕ) (b : Text) → length b ≤ n → next_frame by (cut_frames n by b).1 ≡ none
  unfolding cut_frames
  rest_none zero b l = empty_none b l
  rest_none (suc n) b l = elim (Option-cases (next_frame by b)) [
    | inl e ↦ rw e e
    | inr e ↦ rw e.1 (rest_none n e.0.1 (omega (arith, shorter b e.0 e.1)))
  ]

  -- The frames of a text that arrives in two parts.
  pub cut_frames-append :
      (n k : ℕ) (b t : Text)
      → length (b ++ t) ≤ k
      → cut_frames k by (b ++ t) ≡ (
        (cut_frames n by b).0 ++ (cut_frames k by ((cut_frames n by b).1 ++ t)).0,
        (cut_frames k by ((cut_frames n by b).1 ++ t)).1,
      )
  unfolding cut_frames
  cut_frames-append zero k b t l = refl
  cut_frames-append (suc n) zero b t l = rw (empty_none b (omega (arith, length-append b t))) refl
  cut_frames-append (suc n) (suc k) b t l = elim (Option-cases (next_frame by b)) [
    | inl e ↦ rw e refl
    | inr e ↦
        let cut = e.0 in
        let short = shorter b cut e.1 in
        let f = cut_frames n by cut.1 in
        let fits : length (f.1 ++ t) ≤ k =
          omega (arith, length-append f.1 t, length-append b t, rest_short n cut.1) in
        let inner =
          cut_frames-append n k cut.1 t (omega (arith, length-append cut.1 t, length-append b t)) in
        let fuel = cut_frames-fuel k (suc k) (f.1 ++ t) fits (omega arith) in
        cut_frames-some k (b ++ t) (cut.0, cut.1 ++ t) (next_frame-append by b t cut e.1)
        ∙ rw e.1 (ap (λ g. (cut.0 ∷ g.0, g.1)) inner ∙ ap (λ g. (cut.0 ∷ (f.0 ++ g.0), g.1)) fuel)
  ]
