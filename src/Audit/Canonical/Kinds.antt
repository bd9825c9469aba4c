-- ===== src/Audit/Canonical/Kinds.antt =====
-- Equal layouts are layouts of values of one kind.
use haechi.Prelude.{
  ℕ, ◌≤◌, ◌≡◌, refl, sym, ap, ◌∙◌, true, false, [], ◌∷◌, arith, ◌==◌, if◌then◌else◌, Text, Json,
  null, boolean, number, string, array, object, Items, Fields,
}
use haechi.Audit.Canonical.Numbers.{is_decimal, decimal-head}
use haechi.Audit.Canonical.Layout.{layout}

-- What kind of value starts with a code unit; 7 for none.
kind_at : ℕ → ℕ
kind_at c =
    if c == b'n'
    then 0
    else if c == b't'
    then 1
    else if c == b'f'
    then 2
    else if c == b'"'
    then 4
    else if c == b'['
    then 5
    else if c == b'{'
    then 6
    else if is_decimal c
    then 3
    else 7

first_kind : Text → ℕ
unfolding kind_at
first_kind [] = 7
first_kind (c ∷ s) = kind_at c

unfoldable pub kind : Json → ℕ
kind null = 0
kind (boolean true) = 1
kind (boolean false) = 2
kind (number n) = 3
kind (string s) = 4
kind (array xs) = 5
kind (object fs) = 6

decimal_kind : (c : ℕ) → is_decimal c ≡ true → kind_at c ≡ 3
unfolding kind_at
decimal_kind c h = ground arith

layout-kind : (v : Json) (r : Text) → first_kind (layout v r) ≡ kind v
unfolding layout kind first_kind
layout-kind null r = refl
layout-kind (boolean true) r = refl
layout-kind (boolean false) r = refl
layout-kind (number n) r = let h = decimal-head n r in ap first_kind h.2 ∙ decimal_kind h.0 h.3
layout-kind (string s) r = refl
layout-kind (array xs) r = refl
layout-kind (object fs) r = refl

kind-le : (v : Json) → kind v ≤ 6
unfolding kind
kind-le null = omega arith
kind-le (boolean true) = omega arith
kind-le (boolean false) = omega arith
kind-le _ = omega arith

pub same_kind : (v w : Json) (r s : Text) → layout v r ≡ layout w s → kind w ≡ kind v
same_kind v w r s e = sym (layout-kind w s) ∙ ap first_kind (sym e) ∙ layout-kind v r

-- The values of each kind.
pub null_of : (w : Json) → kind w ≡ 0 → w ≡ null
unfolding kind
null_of null k = refl
null_of (boolean true) k = absurd (omega arith)
null_of (boolean false) k = absurd (omega arith)
null_of _ k = absurd (omega arith)

pub true_of : (w : Json) → kind w ≡ 1 → w ≡ boolean true
unfolding kind
true_of (boolean true) k = refl
true_of (boolean false) k = absurd (omega arith)
true_of _ k = absurd (omega arith)

pub false_of : (w : Json) → kind w ≡ 2 → w ≡ boolean false
unfolding kind
false_of (boolean true) k = absurd (omega arith)
false_of (boolean false) k = refl
false_of _ k = absurd (omega arith)

pub number_of : (w : Json) → kind w ≡ 3 → (n : ℕ) × (w ≡ number n)
unfolding kind
number_of (boolean true) k = absurd (omega arith)
number_of (boolean false) k = absurd (omega arith)
number_of (number n) k = (n, refl)
number_of _ k = absurd (omega arith)

pub string_of : (w : Json) → kind w ≡ 4 → (s : Text) × (w ≡ string s)
unfolding kind
string_of (boolean true) k = absurd (omega arith)
string_of (boolean false) k = absurd (omega arith)
string_of (string s) k = (s, refl)
string_of _ k = absurd (omega arith)

pub array_of : (w : Json) → kind w ≡ 5 → (xs : Items) × (w ≡ array xs)
unfolding kind
array_of (boolean true) k = absurd (omega arith)
array_of (boolean false) k = absurd (omega arith)
array_of (array xs) k = (xs, refl)
array_of _ k = absurd (omega arith)

pub object_of : (w : Json) → kind w ≡ 6 → (fs : Fields) × (w ≡ object fs)
unfolding kind
object_of (boolean true) k = absurd (omega arith)
object_of (boolean false) k = absurd (omega arith)
object_of (object fs) k = (fs, refl)
object_of _ k = absurd (omega arith)

-- No value starts as an array ends.
pub layout-open : (v : Json) (r s : Text) → layout v r ≡ b']' ∷ s → ⊥
unfolding first_kind kind_at
layout-open v r s e =
    let k : kind v ≡ 7 = sym (layout-kind v r) ∙ ap first_kind e in omega (arith, k, kind-le v)
