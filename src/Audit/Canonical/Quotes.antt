-- ===== src/Audit/Canonical/Quotes.antt =====
-- A text is read back from its quoted form, unit by unit.
use haechi.Prelude.{
  ℕ, ◌+◌, ◌-◌, ◌*◌, ◌/◌, ◌%◌, ◌≡◌, refl, sym, subst, ap, ◌∙◌, ◌⊎◌, inl, inr, Bool, true, false, not,
  ◌&&◌, ◌||◌, [], ◌∷◌, ◌++◌, append_assoc, arith, ltb, ◌==◌, ==_iff, if◌then◌else◌, drop, Text,
}
use haechi.Audit.{
  hex_digit, unicode_escape, is_lead, is_trail, starts_with_trail, escaped, quote_unit, quote_units,
}

abbrev unhex : ℕ → ℕ
unhex c = if ltb c b'a' then c - b'0' else (c - b'a') + 10

abbrev unescape : ℕ → ℕ
unescape c =
    if c == b'b'
    then 8
    else if c == b't'
    then 9
    else if c == b'n'
    then 10
    else if c == b'f'
    then 12
    else if c == b'r'
    then 13
    else c

abbrev four_digits : Text → ℕ × Text
four_digits (p ∷ q ∷ r ∷ s ∷ t) = (unhex p * 4096 + unhex q * 256 + unhex r * 16 + unhex s, t)
four_digits t = (0, t)

read_escape : Text → ℕ × Text
read_escape [] = (0, [])
read_escape (c ∷ t) = if c == b'u' then four_digits t else (unescape c, t)

read_unit : Text → ℕ × Text
unfolding read_escape
read_unit [] = (0, [])
read_unit (c ∷ t) = if c == b'\\' then read_escape t else (c, t)

unhex-digit : (d : ℕ) → unhex (hex_digit d) ≡ d
unhex-digit d = ground arith

read_unit-unicode_escape : (c : ℕ) (r : Text) → read_unit (unicode_escape c ++ r) ≡ (c, r)
unfolding read_unit
read_unit-unicode_escape c r =
    rw
      (
        unhex-digit (c / 4096),
        unhex-digit (c / 256 % 16),
        unhex-digit (c / 16 % 16),
        unhex-digit (c % 16),
      )
      (ap (λ n. (n, r)) (omega arith))

read_unit-plain : (c : ℕ) (r : Text) → (c == b'\\') ≡ false → read_unit (c ∷ r) ≡ (c, r)
unfolding read_unit
read_unit-plain c r e = rw e refl

either :
    (b : Bool) (x y : Text) (c : ℕ) (r : Text)
    → (b ≡ true → read_unit (x ++ r) ≡ (c, r))
    → (b ≡ false → read_unit (y ++ r) ≡ (c, r))
    → read_unit ((if b then x else y) ++ r) ≡ (c, r)
either true x y c r h k = h refl
either false x y c r h k = k refl

-- A short escape reads as the unit that it stands for.
read_unit-escaped :
    (e d c : ℕ) (r : Text)
    → read_unit (escaped e ++ r) ≡ (d, r)
    → (c == d) ≡ true
    → read_unit (escaped e ++ r) ≡ (c, r)
read_unit-escaped e d c r h t = h ∙ ap (λ n. (n, r)) (sym ((==_iff c d).0 t))

quote_or_backslash : (c : ℕ) → (c == b'"' || c == b'\\') ≡ true → (c ≡ b'"') ⊎ (c ≡ b'\\')
quote_or_backslash c h = ground arith

read_unit-special :
    (c : ℕ) (r : Text) → (c == b'"' || c == b'\\') ≡ true → read_unit (escaped c ++ r) ≡ (c, r)
unfolding read_unit
read_unit-special c r h = elim (quote_or_backslash c h) [ inl e ↦ rw e refl | inr e ↦ rw e refl ]

read_unit-quote_unit : (f n : Bool) (c : ℕ) (r : Text) → read_unit (quote_unit f n c ++ r) ≡ (c, r)
unfolding quote_unit read_unit
read_unit-quote_unit f n c r = either _ _ _ c r (read_unit-special c r) (λ plain.
    either _ _ _ c r (read_unit-escaped b'b' 8 c r refl) (λ _.
      either _ _ _ c r (read_unit-escaped b't' 9 c r refl) (λ _.
        either _ _ _ c r (read_unit-escaped b'n' 10 c r refl) (λ _.
          either _ _ _ c r (read_unit-escaped b'f' 12 c r refl) (λ _.
            either _ _ _ c r (read_unit-escaped b'r' 13 c r refl) (λ _.
              either (ltb c 32 || is_lead c && not n || is_trail c && not f) (unicode_escape c)
                (c ∷ []) c r (λ _. read_unit-unicode_escape c r)
                (λ _. read_unit-plain c r (ground arith))))))))

quote_unit_injective :
    (f n m : Bool) (c d : ℕ) (r s : Text)
    → quote_unit f n c ++ r ≡ quote_unit f m d ++ s
    → (c ≡ d) × (r ≡ s)
quote_unit_injective f n m c d r s e =
    let read : ◌≡◌ {A = ℕ × Text} (c, r) (d, s) =
      sym (read_unit-quote_unit f n c r) ∙ ap read_unit e ∙ read_unit-quote_unit f m d s in
    (ap (λ p. p.0) read, ap (λ p. p.1) read)

-- No unit is written as a bare quotation mark.
quote_unit-head :
    (f n : Bool) (c : ℕ) (r s : Text) → quote_unit f n c ++ r ≡ b'"' ∷ s → true ≡ false
unfolding quote_unit read_unit
quote_unit-head f n c r s h =
    let e : c ≡ b'"' = ap (λ p. p.0) (sym (read_unit-quote_unit f n c r) ∙ ap read_unit h) in
    let g : escaped b'"' ++ r ≡ b'"' ∷ s = subst (λ d. quote_unit f n d ++ r ≡ b'"' ∷ s) e h in cc g

pub quote_units_injective :
    (f : Bool) (s t r q : Text)
    → quote_units f s ++ b'"' ∷ r ≡ quote_units f t ++ b'"' ∷ q
    → (s ≡ t) × (r ≡ q)
unfolding quote_units
quote_units_injective f [] [] r q e = (refl, ap (drop 1) e)
quote_units_injective f [] (c ∷ t) r q e =
    let h =
      quote_unit-head f (starts_with_trail t) c _ _
        (sym (append_assoc (quote_unit f (starts_with_trail t) c) _ _) ∙ sym e) in
    cc h
quote_units_injective f (c ∷ s) [] r q e =
    let h =
      quote_unit-head f (starts_with_trail s) c _ _
        (sym (append_assoc (quote_unit f (starts_with_trail s) c) _ _) ∙ e) in
    cc h
quote_units_injective f (c ∷ s) (d ∷ t) r q e =
    let first = quote_unit_injective f (starts_with_trail s) (starts_with_trail t) c d _ _ (
      sym (append_assoc (quote_unit f (starts_with_trail s) c) _ _)
      ∙ e
      ∙ append_assoc (quote_unit f (starts_with_trail t) d) _ _) in
    let rest =
      quote_units_injective (is_lead c) s t r q
        (first.1 ∙ ap (λ k. quote_units (is_lead k) t ++ b'"' ∷ q) (sym first.0)) in
    (cc (first.0, rest.0), rest.1)
