-- ===== src/Stream/Lines.antt =====
-- Texts as lines: what is joined is read back.
use haechi.Prelude.{
  ℕ, ◌≡◌, refl, sym, ap, ◌∙◌, inl, inr, Bool, true, false, Bool-cases, List, [], ◌∷◌, ◌++◌, ◌==◌,
  any, filter, All, Text, append_assoc,
}
use haechi.Stream.{lines, unlines, grow}

abbrev pub is_newline : ℕ → Bool
is_newline c = c == b'\n'

-- A line has no newline.
abbrev pub IsLine : Text → Type 0
IsLine l = any is_newline l ≡ false

grow-IsLine :
    (c : ℕ) (ls : List Text) → (c == b'\n') ≡ false → All IsLine ls → All IsLine (grow c ls)
grow-IsLine c [] e h = (rw e refl, tt)
grow-IsLine c (l ∷ ls) e h = (rw e h.0, h.1)

pub lines-IsLine : (s : Text) → All IsLine (lines s)
unfolding lines
lines-IsLine [] = (refl, tt)
lines-IsLine (c ∷ s) = elim (Bool-cases (c == b'\n')) [
  | inl e ↦ rw e (refl, lines-IsLine s)
  | inr e ↦ rw e (grow-IsLine c (lines s) e (lines-IsLine s))
]

pub lines-append : (l s : Text) → IsLine l → lines (l ++ (b'\n' ∷ s)) ≡ l ∷ lines s
unfolding lines
lines-append [] s h = refl
lines-append (c ∷ l) s h = elim (Bool-cases (c == b'\n')) [
  | inl e ↦ absurd (clash (sym (rw e refl) ∙ h))
  | inr e ↦ rw (e, lines-append l s (sym (rw e refl) ∙ h)) refl
]
  where
    clash : ◌≡◌ {A = Bool} true false → ⊥
    clash e = cc

-- Lines that are joined, before a newline, are read back.
pub lines-unlines :
    (l : Text) (ls : List Text) (s : Text)
    → All IsLine (l ∷ ls)
    → lines (unlines (l ∷ ls) ++ (b'\n' ∷ s)) ≡ (l ∷ ls) ++ lines s
unfolding unlines
lines-unlines l [] s h = lines-append l s h.0
lines-unlines l (m ∷ ls) s h =
    ap lines (append_assoc l (b'\n' ∷ unlines (m ∷ ls)) (b'\n' ∷ s))
    ∙ lines-append l (unlines (m ∷ ls) ++ (b'\n' ∷ s)) h.0
    ∙ ap (λ x. l ∷ x) (lines-unlines m ls s h.1)

module _ {ℓ} {A : Type ℓ} (test : A → Bool) where
  pub filter_append : (xs ys : List A) → filter test (xs ++ ys) ≡ filter test xs ++ filter test ys
  filter_append [] ys = refl
  filter_append (x ∷ xs) ys = elim (Bool-cases (test x)) [
    | inl e ↦ rw e (ap (λ zs. x ∷ zs) (filter_append xs ys))
    | inr e ↦ rw e (filter_append xs ys)
  ]

  pub filter-All :
      (xs ys : List A) → All (λ x. test x ≡ true) xs → filter test (xs ++ ys) ≡ xs ++ filter test ys
  filter-All [] ys h = refl
  filter-All (x ∷ xs) ys h = rw h.0 (ap (λ zs. x ∷ zs) (filter-All xs ys h.1))

  pub filter_none :
      (xs ys : List A) → All (λ x. test x ≡ false) xs → filter test (xs ++ ys) ≡ filter test ys
  filter_none [] ys h = refl
  filter_none (x ∷ xs) ys h = rw h.0 (filter_none xs ys h.1)

pub All-append : (P : Text → Type 0) (xs ys : List Text) → All P xs → All P ys → All P (xs ++ ys)
All-append P [] ys h k = k
All-append P (x ∷ xs) ys h k = (h.0, All-append P xs ys h.1 k)

-- A text has a first line.
pub lines_some : (s : Text) → (l : Text) × (ls : List Text) × (lines s ≡ l ∷ ls)
unfolding lines
lines_some [] = ([], [], refl)
lines_some (c ∷ s) = elim (Bool-cases (c == b'\n')) [
  | inl e ↦ ([], lines s, rw e refl)
  | inr e ↦ let rest = lines_some s in (c ∷ rest.0, rest.1, rw (e, rest.2) refl)
]
