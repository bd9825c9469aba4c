-- ===== src/Filter/Tests.antt =====
-- Runs of the filter's parts, and the theorems about them at concrete inputs.
use haechi.Prelude.{ℕ, ◌≡◌, refl, true, false, none, List, [], ◌∷◌, arith, In, utf16}
use haechi.Prelude.Sort.{sort}
use haechi.Core.{Detection, in_value}
use haechi.Filter.Digits.{is_space}
use haechi.Filter.Iban.{iban_valid, iban_loop, is_iban_shape}
use haechi.Filter.Overlaps.{remove_overlaps}
use haechi.Filter.Overlaps.Laws.{IsDisjoint, Covered, remove_overlaps_covers}
use haechi.Filter.Luhn.{luhn_valid}
use haechi.Filter.Verhoeff.{verhoeff_valid, in_aadhaar_valid, compose, permute}
use haechi.Filter.Verhoeff.Detects.{verhoeff_valid_detects}

abbrev found : ℕ → ℕ → Detection
found start end = record {
  type = "phone";
  rule_id = "phone";
  path = [];
  path_text = [];
  kind = in_value;
  value = [];
  start = start;
  end = end;
  confidence = none;
}

-- The longer of two that start together wins; one that starts inside it is dropped.
overlapping :
    remove_overlaps (found 9 12 ∷ found 2 4 ∷ found 2 6 ∷ found 5 8 ∷ [])
    ≡ found 2 6 ∷ found 9 12 ∷ []
unfolding remove_overlaps sort
overlapping = refl

card_number : luhn_valid (utf16 "4111-1111-1111-1111") ≡ true
unfolding luhn_valid
card_number = refl

aadhaar_number : in_aadhaar_valid (utf16 "2341 2341 2346") ≡ true
unfolding in_aadhaar_valid compose permute
aadhaar_number = refl

verhoeff_valid_detects_example : verhoeff_valid (2 ∷ 6 ∷ 3 ∷ []) ≡ false
unfolding verhoeff_valid compose permute
verhoeff_valid_detects_example =
    (verhoeff_valid_detects (2 ∷ []) [] 3 6 (omega arith) tt (omega arith) (omega arith)
        (omega arith)).1
      refl

abbrev four_found : List Detection
four_found = found 9 12 ∷ found 2 4 ∷ found 2 6 ∷ found 5 8 ∷ []

remove_overlaps_covers_example :
    IsDisjoint 0 (remove_overlaps four_found)
    × ((d : Detection) → In d (remove_overlaps four_found) → In d four_found)
    × ((d : Detection) → In d four_found → Covered (remove_overlaps four_found) d)
remove_overlaps_covers_example = remove_overlaps_covers four_found

iban_accepted : iban_valid (utf16 "GB82 west 1234 5698 7654 32") ≡ true
unfolding iban_valid iban_loop is_iban_shape is_space
iban_accepted = refl

iban_refused : iban_valid (utf16 "GB82 WEST 1234 5698 7654 23") ≡ false
unfolding iban_valid iban_loop is_iban_shape is_space
iban_refused = refl
