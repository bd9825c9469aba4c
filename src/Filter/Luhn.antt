-- ===== src/Filter/Luhn.antt =====
-- `luhnValid`, the check of the built-in card rule.
use haechi.Prelude.{
  ℕ, ◌+◌, ◌-◌, ◌*◌, ◌%◌, ◌<◌, ◌≡◌, ap, ◌∙◌, ◌≢◌, Bool, true, false, not, ◌||◌, inl, inr, List, [],
  ◌∷◌, ◌++◌, arith, ltb, ◌==◌, if◌then◌else◌, Bool-cases, length, Text, append_assoc,
}
use mathlib.Core.List.{reverse, reverse-append, reverse-cons}
use haechi.Filter.Digits.{
  is_digit, to_digit, digits_of, digits_of-append, to_digit-lt, to_digit_inj,
}

-- One round: every second digit is doubled, less 9 if that is above 9.
unfoldable pub luhn_digit : Bool → ℕ → ℕ
luhn_digit false digit = digit
luhn_digit true digit = if ltb 9 (digit * 2) then digit * 2 - 9 else digit * 2

-- The loop, from the last digit to the first.
unfoldable pub luhn_loop : Bool → ℕ → List ℕ → ℕ
luhn_loop alternate sum [] = sum
luhn_loop alternate sum (d ∷ ds) = luhn_loop (not alternate) (sum + luhn_digit alternate d) ds

unfoldable pub luhn_valid : Text → Bool
unfolding digits_of luhn_loop luhn_digit
luhn_valid value =
    let digits = digits_of value in
    if ltb (length digits) 13 || ltb 19 (length digits)
    then false
    else luhn_loop false 0 (reverse digits) % 10 == 0

luhn_loop-sum :
    (alternate : Bool) (sum : ℕ) (ds : List ℕ)
    → luhn_loop alternate sum ds ≡ luhn_loop alternate 0 ds + sum
unfolding luhn_loop
luhn_loop-sum alternate sum [] = omega arith
luhn_loop-sum alternate sum (d ∷ ds) = omega (
  arith,
  luhn_loop-sum (not alternate) (sum + luhn_digit alternate d) ds,
  luhn_loop-sum (not alternate) (0 + luhn_digit alternate d) ds,
)

-- One digit counts for itself in the sum, in one of the two ways, and the others for a constant.
luhn_loop-append :
    (alternate : Bool) (sum : ℕ) (before after : List ℕ)
    → (rest : ℕ) × (b : Bool) × ((d : ℕ)
        → luhn_loop alternate sum (before ++ d ∷ after) ≡ rest + luhn_digit b d)
unfolding luhn_loop
luhn_loop-append alternate sum [] after = (
  luhn_loop (not alternate) 0 after + sum,
  alternate,
  λ d. omega (arith, luhn_loop-sum (not alternate) (sum + luhn_digit alternate d) after),
)
luhn_loop-append alternate sum (x ∷ before) after =
    luhn_loop-append (not alternate) (sum + luhn_digit alternate x) before after

luhn_digit_inj :
    (b : Bool) (rest c d : ℕ)
    → c < 10
    → d < 10
    → (rest + luhn_digit b c) % 10 ≡ 0
    → (rest + luhn_digit b d) % 10 ≡ 0
    → c ≡ d
unfolding luhn_digit
luhn_digit_inj false rest c d hc hd p q = omega arith
luhn_digit_inj true rest c d hc hd p q = ground arith

luhn_valid-sum :
    (value : Text)
    → luhn_valid value ≡ true
    → luhn_loop false 0 (reverse (digits_of value)) % 10 ≡ 0
unfolding luhn_valid
luhn_valid-sum value h = ground arith

reverse-middle : (xs ys : List ℕ) (d : ℕ) → reverse (xs ++ d ∷ ys) ≡ reverse ys ++ d ∷ reverse xs
reverse-middle xs ys d =
    reverse-append xs (d ∷ ys)
    ∙ ap (λ r. r ++ reverse xs) (reverse-cons d ys)
    ∙ append_assoc (reverse ys) (d ∷ []) (reverse xs)

-- The card check detects every mistake in a single digit: of two numbers that differ in one digit
-- only, however they are punctuated, not both are valid.
pub luhn_valid_detects :
    (before after : Text) (c d : ℕ)
    → is_digit c ≡ true
    → is_digit d ≡ true
    → c ≢ d
    → luhn_valid (before ++ c ∷ after) ≡ true
    → luhn_valid (before ++ d ∷ after) ≡ false
luhn_valid_detects before after c d hc hd ne valid =
    elim (Bool-cases (luhn_valid (before ++ d ∷ after))) [
      | inr e ↦ e
      | inl also ↦
          let (rest, b, total) =
            luhn_loop-append false 0 (reverse (digits_of after)) (reverse (digits_of before)) in
          let part = λ (x : ℕ) (h : is_digit x ≡ true).
            ap (luhn_loop false 0) (
              ap reverse (digits_of-append before after x h)
              ∙ reverse-middle (digits_of before) (digits_of after) (to_digit x))
            ∙ total (to_digit x) in
          let same =
            luhn_digit_inj b rest (to_digit c) (to_digit d) (to_digit-lt c hc) (to_digit-lt d hd)
              (rw (part c hc) at (luhn_valid-sum (before ++ c ∷ after) valid))
              (rw (part d hd) at (luhn_valid-sum (before ++ d ∷ after) also)) in
          absurd (ne (to_digit_inj c d hc hd same))
    ]
