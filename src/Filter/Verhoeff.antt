-- ===== src/Filter/Verhoeff.antt =====
-- `verhoeffValid` and `inAadhaarValid`.
mod Tables
pub mod Detects
use haechi.Prelude.{
  ℕ, zero, suc, ◌+◌, ◌%◌, Bool, true, false, not, ◌&&◌, ◌||◌, List, [], ◌∷◌, leb, ◌==◌,
  if◌then◌else◌, filter, length, Text, all, Option, none, some, map,
}
use mathlib.Core.List.{reverse}
use haechi.Filter.Digits.{is_digit, is_space, to_digit}

-- A table's entry; each index that the code makes is in range.
unfoldable pub entry : List ℕ → ℕ → ℕ
entry [] i = 0
entry (x ∷ xs) zero = x
entry (x ∷ xs) (suc i) = entry xs i

unfoldable pub row : List (List ℕ) → ℕ → List ℕ
row [] i = []
row (x ∷ xs) zero = x
row (x ∷ xs) (suc i) = row xs i

abbrev pub verhoeff_d : List (List ℕ)
verhoeff_d =
    (0 ∷ 1 ∷ 2 ∷ 3 ∷ 4 ∷ 5 ∷ 6 ∷ 7 ∷ 8 ∷ 9 ∷ [])
    ∷ (1 ∷ 2 ∷ 3 ∷ 4 ∷ 0 ∷ 6 ∷ 7 ∷ 8 ∷ 9 ∷ 5 ∷ [])
    ∷ (2 ∷ 3 ∷ 4 ∷ 0 ∷ 1 ∷ 7 ∷ 8 ∷ 9 ∷ 5 ∷ 6 ∷ [])
    ∷ (3 ∷ 4 ∷ 0 ∷ 1 ∷ 2 ∷ 8 ∷ 9 ∷ 5 ∷ 6 ∷ 7 ∷ [])
    ∷ (4 ∷ 0 ∷ 1 ∷ 2 ∷ 3 ∷ 9 ∷ 5 ∷ 6 ∷ 7 ∷ 8 ∷ [])
    ∷ (5 ∷ 9 ∷ 8 ∷ 7 ∷ 6 ∷ 0 ∷ 4 ∷ 3 ∷ 2 ∷ 1 ∷ [])
    ∷ (6 ∷ 5 ∷ 9 ∷ 8 ∷ 7 ∷ 1 ∷ 0 ∷ 4 ∷ 3 ∷ 2 ∷ [])
    ∷ (7 ∷ 6 ∷ 5 ∷ 9 ∷ 8 ∷ 2 ∷ 1 ∷ 0 ∷ 4 ∷ 3 ∷ [])
    ∷ (8 ∷ 7 ∷ 6 ∷ 5 ∷ 9 ∷ 3 ∷ 2 ∷ 1 ∷ 0 ∷ 4 ∷ [])
    ∷ (9 ∷ 8 ∷ 7 ∷ 6 ∷ 5 ∷ 4 ∷ 3 ∷ 2 ∷ 1 ∷ 0 ∷ [])
    ∷ []

abbrev pub verhoeff_p : List (List ℕ)
verhoeff_p =
    (0 ∷ 1 ∷ 2 ∷ 3 ∷ 4 ∷ 5 ∷ 6 ∷ 7 ∷ 8 ∷ 9 ∷ [])
    ∷ (1 ∷ 5 ∷ 7 ∷ 6 ∷ 2 ∷ 8 ∷ 3 ∷ 0 ∷ 9 ∷ 4 ∷ [])
    ∷ (5 ∷ 8 ∷ 0 ∷ 3 ∷ 7 ∷ 9 ∷ 6 ∷ 1 ∷ 4 ∷ 2 ∷ [])
    ∷ (8 ∷ 9 ∷ 1 ∷ 6 ∷ 0 ∷ 4 ∷ 3 ∷ 5 ∷ 2 ∷ 7 ∷ [])
    ∷ (9 ∷ 4 ∷ 5 ∷ 3 ∷ 1 ∷ 2 ∷ 6 ∷ 8 ∷ 7 ∷ 0 ∷ [])
    ∷ (4 ∷ 2 ∷ 8 ∷ 6 ∷ 5 ∷ 7 ∷ 3 ∷ 9 ∷ 0 ∷ 1 ∷ [])
    ∷ (2 ∷ 7 ∷ 9 ∷ 3 ∷ 8 ∷ 0 ∷ 6 ∷ 4 ∷ 1 ∷ 5 ∷ [])
    ∷ (7 ∷ 0 ∷ 4 ∷ 6 ∷ 9 ∷ 1 ∷ 3 ∷ 2 ∷ 5 ∷ 8 ∷ [])
    ∷ []

-- `VERHOEFF_D[a][b]` and `VERHOEFF_P[i][d]`.
unfoldable pub compose : ℕ → ℕ → ℕ
unfolding entry row
compose a b = entry (row verhoeff_d a) b

unfoldable pub permute : ℕ → ℕ → ℕ
unfolding entry row
permute i d = entry (row verhoeff_p i) d

-- The loop over the reversed digits, from an index on.
unfoldable pub verhoeff_loop : ℕ → ℕ → List ℕ → ℕ
verhoeff_loop check index [] = check
verhoeff_loop check index (d ∷ ds) =
    verhoeff_loop (compose check (permute (index % 8) d)) (index + 1) ds

unfoldable pub verhoeff_valid : List ℕ → Bool
unfolding verhoeff_loop
verhoeff_valid digits = verhoeff_loop 0 0 (reverse digits) == 0

-- A text that `/^[2-9]\d{11}$/` matches.
abbrev pub is_aadhaar_shape : Text → Bool
is_aadhaar_shape [] = false
is_aadhaar_shape (c ∷ cs) = leb b'2' c && leb c b'9' && length cs == 11 && all is_digit cs

abbrev pub is_kept_unit : ℕ → Bool
is_kept_unit c = not (is_space c) && not (c == b'-')

unfoldable pub in_aadhaar_valid : Text → Bool
unfolding verhoeff_valid is_space
in_aadhaar_valid value =
    let digits = filter is_kept_unit value in
    if is_aadhaar_shape digits then verhoeff_valid (map to_digit digits) else false
