-- ===== src/Audit/Chain/Reads.antt =====
-- What a sorted object still says of its fields.
use haechi.Prelude.{
  ◌≡◌, refl, sym, subst, ◌∙◌, inl, inr, true, false, Bool-cases, none, some, Option, [], ◌∷◌, arith,
  if◌then◌else◌, Text, text_eq, text_eq_iff, Json, null, string, Fields, stop, field, get, without,
}
use mathlib.Core.Option
use haechi.Audit.{text_le}
use haechi.Audit.Canonical.Layout.{insert_field, sorted, sorted_fields}
use haechi.Audit.Chain.Records.{previous_hash_key, event_hash_key}
use haechi.Audit.Chain.{is_previous}

text_le_refl : (s : Text) → text_le s s ≡ true
unfolding text_le
text_le_refl [] = refl
text_le_refl (c ∷ s) = ground (arith, text_le_refl s)

-- A key that does not come before another is not that key.
apart : (k j i : Text) → text_le j i ≡ false → text_eq i k ≡ true → text_eq j k ≡ false
apart k j i e h = elim (Bool-cases (text_eq j k)) [
  | inl g ↦
      let same : j ≡ i = (text_eq_iff j k).0 g ∙ sym ((text_eq_iff i k).0 h) in
      let above : text_le j i ≡ true = subst (λ x. text_le j x ≡ true) same (text_le_refl j) in cc
  | inr g ↦ g
]

get-insert_field :
    (k j : Text) (v : Json) (fs : Fields)
    → get k (insert_field j v fs) ≡ (if text_eq j k then some v else get k fs)
unfolding get insert_field
get-insert_field k j v stop = refl
get-insert_field k j v (field i w fs) = elim (Bool-cases (text_le j i)) [
  | inl e ↦ rw e refl
  | inr e ↦ elim (Bool-cases (text_eq i k)) [
    | inl h ↦ let apart : text_eq j k ≡ false = apart k j i e h in rw (e, h, apart) refl
    | inr h ↦ rw (e, h) (get-insert_field k j v fs)
  ]
]

pub get-sorted_fields :
    (k : Text) (fs : Fields) → get k (sorted_fields fs) ≡ Option.map sorted (get k fs)
unfolding get sorted
get-sorted_fields k stop = refl
get-sorted_fields k (field j v fs) = elim (Bool-cases (text_eq j k)) [
  | inl e ↦ get-insert_field k j (sorted v) (sorted_fields fs) ∙ rw e refl
  | inr e ↦ get-insert_field k j (sorted v) (sorted_fields fs) ∙ rw e (get-sorted_fields k fs)
]

get-without : (k j : Text) (fs : Fields) → text_eq j k ≡ false → get k (without j fs) ≡ get k fs
unfolding get without
get-without k j stop d = refl
get-without k j (field i v fs) d =
    ground (arith, text_eq_iff i j, text_eq_iff i k, text_eq_iff j k, get-without k j fs d)

-- The previous hash does not hang on the record's own hash.
pub get-previous_hash :
    (fs : Fields) → get previous_hash_key (without event_hash_key fs) ≡ get previous_hash_key fs
unfolding text_eq
get-previous_hash fs = get-without previous_hash_key event_hash_key fs refl

pub is_previous-sorted :
    (p : Option Text) (o : Option Json)
    → is_previous p o ≡ true
    → is_previous p (Option.map sorted o) ≡ true
unfolding is_previous sorted
is_previous-sorted none none h = refl
is_previous-sorted none (some null) h = refl
is_previous-sorted (some t) (some (string s)) h = h
is_previous-sorted _ _ h = cc

none_apart :
    (t : Text) (o : Option Json) → is_previous none o ≡ true → is_previous (some t) o ≡ true → ⊥
unfolding is_previous
none_apart t none h k = cc
none_apart t (some null) h k = cc
none_apart t (some _) h k = cc

some_same :
    (s t : Text) (o : Option Json)
    → is_previous (some s) o ≡ true
    → is_previous (some t) o ≡ true
    → ◌≡◌ {A = Option Text} (some s) (some t)
unfolding is_previous
some_same s t (some (string u)) h k = cc ((text_eq_iff u s).0 h, (text_eq_iff u t).0 k)
some_same s t none h k = cc
some_same s t (some _) h k = cc

pub is_previous_unique :
    (p q : Option Text) (o : Option Json) → is_previous p o ≡ true → is_previous q o ≡ true → p ≡ q
unfolding is_previous
is_previous_unique none none o h k = refl
is_previous_unique none (some t) o h k = absurd (none_apart t o h k)
is_previous_unique (some s) none o h k = absurd (none_apart s o k h)
is_previous_unique (some s) (some t) o h k = some_same s t o h k
