-- ===== src/Filter/Digits.antt =====
-- The digits of a text, as the validators take them: JavaScript's classes `\d` and `\s`, and
-- `Number` of one digit.
use haechi.Prelude.{
  ℕ, ◌-◌, ◌<◌, ◌≡◌, refl, ap, Bool, true, ◌&&◌, ◌||◌, inl, inr, List, [], ◌∷◌, ◌++◌, map, arith,
  leb, ◌==◌, Bool-cases, filter, Text,
}

abbrev pub is_digit : ℕ → Bool
is_digit c = leb b'0' c && leb c b'9'

-- JavaScript's white space and line terminators.
unfoldable pub is_space : ℕ → Bool
is_space c =
    leb 9 c && leb c 13
    || c == 32
    || c == 0xA0
    || c == 0x1680
    || leb 0x2000 c && leb c 0x200A
    || c == 0x2028
    || c == 0x2029
    || c == 0x202F
    || c == 0x205F
    || c == 0x3000
    || c == 0xFEFF

abbrev pub to_digit : ℕ → ℕ
to_digit c = c - b'0'

-- `value.replace(/\D/g, "")`, each digit as its number.
unfoldable pub digits_of : Text → List ℕ
digits_of value = map to_digit (filter is_digit value)

filter-append : (p : ℕ → Bool) (xs ys : Text) → filter p (xs ++ ys) ≡ filter p xs ++ filter p ys
filter-append p [] ys = refl
filter-append p (x ∷ xs) ys = elim (Bool-cases (p x)) [
  | inl e ↦ rw e (ap (◌∷◌ x) (filter-append p xs ys))
  | inr e ↦ rw e (filter-append p xs ys)
]

map-append_ℕ : (f : ℕ → ℕ) (xs ys : List ℕ) → map f (xs ++ ys) ≡ map f xs ++ map f ys
map-append_ℕ f [] ys = refl
map-append_ℕ f (x ∷ xs) ys = ap (◌∷◌ (f x)) (map-append_ℕ f xs ys)

-- The digits around one digit of a text.
pub digits_of-append :
    (before after : Text) (c : ℕ)
    → is_digit c ≡ true
    → digits_of (before ++ c ∷ after) ≡ digits_of before ++ to_digit c ∷ digits_of after
unfolding digits_of
digits_of-append before after c d =
    rw (filter-append is_digit before (c ∷ after), d)
      (map-append_ℕ to_digit (filter is_digit before) (c ∷ filter is_digit after))

pub to_digit-lt : (c : ℕ) → is_digit c ≡ true → to_digit c < 10
to_digit-lt c h = ground arith

pub to_digit_inj :
    (c d : ℕ) → is_digit c ≡ true → is_digit d ≡ true → to_digit c ≡ to_digit d → c ≡ d
to_digit_inj c d h k e = ground arith
