-- ===== src/Audit/Canonical/Numbers.antt =====
-- A number is read back from its decimal digits, up to the first code unit that is no digit.
use haechi.Prelude.{
  ℕ, zero, suc, ◌+◌, ◌-◌, ◌*◌, ◌/◌, ◌%◌, ◌≤◌, ◌≡◌, refl, sym, ap, ◌∙◌, inl, inr, Bool, true, false,
  ◌&&◌, Bool-cases, [], ◌∷◌, ◌++◌, append_assoc, arith, leb, ltb, if◌then◌else◌, Text,
}
use haechi.Audit.{digits, decimal}

abbrev pub is_decimal : ℕ → Bool
is_decimal c = leb b'0' c && leb c b'9'

-- The text does not go on with a digit.
abbrev pub IsDelimited : Text → Type 0
IsDelimited [] = Unit
IsDelimited (c ∷ s) = is_decimal c ≡ false

read_number : ℕ → Text → ℕ × Text
read_number n [] = (n, [])
read_number n (c ∷ s) =
    let more = read_number (n * 10 + (c - b'0')) s in if is_decimal c then more else (n, c ∷ s)

read_number-digit :
    (n d : ℕ) (r : Text) → d ≤ 9 → read_number n ((b'0' + d) ∷ r) ≡ read_number (n * 10 + d) r
unfolding read_number
read_number-digit n d r l =
    let low : is_decimal (b'0' + d) ≡ true = ground arith in
    let same : (b'0' + d) - b'0' ≡ d = omega arith in rw (low, same) refl

read_number-digits :
    (fuel n : ℕ) (r : Text) → n ≤ fuel → read_number 0 (digits fuel n ++ r) ≡ read_number n r
unfolding digits
read_number-digits zero n r l =
    read_number-digit 0 (n % 10) r (omega arith) ∙ ap (λ k. read_number k r) (omega arith)
read_number-digits (suc fuel) n r l = elim (Bool-cases (ltb n 10)) [
  | inl e ↦ rw e (read_number-digit 0 n r (ground arith) ∙ ap (λ k. read_number k r) (omega arith))
  | inr e ↦
      rw (e, append_assoc (digits fuel (n / 10)) ((b'0' + n % 10) ∷ []) r)
        (read_number-digits fuel (n / 10) ((b'0' + n % 10) ∷ r) (omega arith)
          ∙ read_number-digit (n / 10) (n % 10) r (omega arith)
          ∙ ap (λ k. read_number k r) (omega arith))
]

read_number-IsDelimited : (n : ℕ) (r : Text) → IsDelimited r → read_number n r ≡ (n, r)
unfolding read_number
read_number-IsDelimited n [] d = refl
read_number-IsDelimited n (c ∷ s) d = rw d refl

pub decimal_injective :
    (n m : ℕ) (r s : Text)
    → decimal n ++ r ≡ decimal m ++ s
    → IsDelimited r
    → IsDelimited s
    → (n ≡ m) × (r ≡ s)
unfolding decimal
decimal_injective n m r s e d f =
    let read : ◌≡◌ {A = ℕ × Text} (n, r) (m, s) =
      sym (read_back n r d) ∙ ap (read_number 0) e ∙ read_back m s f in
    (ap (λ p. p.0) read, ap (λ p. p.1) read)
  where
    read_back : (n : ℕ) (r : Text) → IsDelimited r → read_number 0 (digits n n ++ r) ≡ (n, r)
    read_back n r d = read_number-digits n n r (omega arith) ∙ read_number-IsDelimited n r d

-- The first code unit is a digit.
digits-head :
    (fuel n : ℕ) (r : Text)
    → (c : ℕ) × (s : Text) × (digits fuel n ++ r ≡ c ∷ s) × (is_decimal c ≡ true)
unfolding digits
digits-head zero n r = (_, r, refl, ground arith)
digits-head (suc fuel) n r = elim (Bool-cases (ltb n 10)) [
  | inl e ↦ rw e (_, r, refl, ground arith)
  | inr e ↦
      rw (e, append_assoc (digits fuel (n / 10)) ((b'0' + n % 10) ∷ []) r)
        (digits-head fuel (n / 10) ((b'0' + n % 10) ∷ r))
]

pub decimal-head :
    (n : ℕ) (r : Text) → (c : ℕ) × (s : Text) × (decimal n ++ r ≡ c ∷ s) × (is_decimal c ≡ true)
unfolding decimal
decimal-head n r = digits-head n n r
