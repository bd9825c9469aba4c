-- ===== src/Filter/Iban.antt =====
-- packages/filter/index.mjs, `ibanValid`. The rule's pattern hands it ASCII letters and digits only, so
-- `toUpperCase` is that of the ASCII letters.
use haechi.Prelude.{
  ℕ, ◌+◌, ◌-◌, ◌*◌, ◌/◌, ◌%◌, ◌≡◌, refl, ap, ◌∙◌, inl, inr, Bool, false, not, ◌&&◌, ◌||◌,
  Bool-cases, List, [], ◌∷◌, ◌++◌, map, arith, leb, ◌==◌, if◌then◌else◌, filter, all, length, take,
  drop, Text,
}
use haechi.Filter.Digits.{is_digit, is_space, to_digit}

abbrev pub to_upper : ℕ → ℕ
to_upper c = if leb b'a' c && leb c b'z' then c - 32 else c

abbrev is_upper : ℕ → Bool
is_upper c = leb b'A' c && leb c b'Z'

abbrev is_upper_or_digit : ℕ → Bool
is_upper_or_digit c = is_upper c || is_digit c

-- `/^[A-Z]{2}\d{2}[A-Z0-9]{11,30}$/`
unfoldable pub is_iban_shape : Text → Bool
is_iban_shape (a ∷ b ∷ c ∷ d ∷ rest) =
    is_upper a
    && is_upper b
    && is_digit c
    && is_digit d
    && leb 11 (length rest)
    && leb (length rest) 30
    && all is_upper_or_digit rest
is_iban_shape _ = false

-- The digits that stand for a character: itself, or the two of its number from 10 to 35.
abbrev pub mapped : ℕ → List ℕ
mapped c = if is_digit c then to_digit c ∷ [] else (c - 55) / 10 ∷ (c - 55) % 10 ∷ []

abbrev pub add_digits : ℕ → List ℕ → ℕ
add_digits remainder [] = remainder
add_digits remainder (d ∷ ds) = add_digits ((remainder * 10 + d) % 97) ds

unfoldable pub iban_loop : ℕ → Text → ℕ
iban_loop remainder [] = remainder
iban_loop remainder (c ∷ s) = iban_loop (add_digits remainder (mapped c)) s

abbrev pub compact : Text → Text
unfolding is_space
compact value = map to_upper (filter (λ c. not (is_space c)) value)

abbrev pub rearranged : Text → Text
rearranged iban = drop 4 iban ++ take 4 iban

unfoldable pub iban_valid : Text → Bool
unfolding compact is_iban_shape iban_loop
iban_valid value = is_iban_shape (compact value) && iban_loop 0 (rearranged (compact value)) == 1

-- The integer that the standard takes the remainder of: letters as two decimal digits.
unfoldable pub iban_number : ℕ → Text → ℕ
iban_number n [] = n
iban_number n (c ∷ s) =
    iban_number (if is_digit c then n * 10 + to_digit c else n * 100 + (c - 55)) s

loop_step :
    (n c : ℕ)
    → add_digits (n % 97) (mapped c)
      ≡ (if is_digit c then n * 10 + to_digit c else n * 100 + (c - 55)) % 97
loop_step n c = elim (Bool-cases (is_digit c)) [
  | inl e ↦ rw e (omega arith)
  | inr e ↦ rw e (omega arith)
]

loop-number : (n : ℕ) (s : Text) → iban_loop (n % 97) s ≡ iban_number n s % 97
unfolding iban_loop iban_number
loop-number n [] = refl
loop-number n (c ∷ s) =
    ap (λ k. iban_loop k s) (loop_step n c)
    ∙ loop-number (if is_digit c then n * 10 + to_digit c else n * 100 + (c - 55)) s

-- `ibanValid` decides what ISO 13616 says: the text without spaces, in capitals, has the shape of an
-- IBAN, and the whole number it spells, its first four characters put last and its letters read as 10
-- to 35, leaves 1 modulo 97. So the remainder taken digit by digit is the number's own.
pub iban_valid-number :
    (value : Text)
    → iban_valid value
      ≡ (is_iban_shape (compact value) && iban_number 0 (rearranged (compact value)) % 97 == 1)
unfolding iban_valid
iban_valid-number value =
    ap (λ k. is_iban_shape (compact value) && k == 1) (loop-number 0 (rearranged (compact value)))
