-- ===== src/Audit/Canonical/Layout.antt =====
-- The canonical text is the plain layout of the value with every object's fields sorted.
use haechi.Prelude.{
  ◌≡◌, refl, sym, ap, ◌∙◌, inl, inr, true, false, Bool-cases, List, [], ◌∷◌, ◌++◌, map,
  append_assoc, append-nil, if◌then◌else◌, Text, utf16, Json, null, boolean, number, string, array,
  object, Items, end, item, Fields, stop, field,
}
use haechi.Prelude.Sort.{sort, insert_sorted}
use haechi.Audit.{
  decimal, quote, quote_units, key_le, text_le, join, entry_text, canonicalize, canonical_items,
  canonical_fields,
}

unfoldable pub insert_field : Text → Json → Fields → Fields
insert_field k v stop = field k v stop
insert_field k v (field j w fs) =
    if text_le k j then field k v (field j w fs) else field j w (insert_field k v fs)

-- The value with the fields of every object in the order of their keys.
unfoldable mutual
  unfolding insert_field

  pub sorted : Json → Json
  sorted (array xs) = array (sorted_items xs)
  sorted (object fs) = object (sorted_fields fs)
  sorted v = v

  pub sorted_items : Items → Items
  sorted_items end = end
  sorted_items (item x xs) = item (sorted x) (sorted_items xs)

  pub sorted_fields : Fields → Fields
  sorted_fields stop = stop
  sorted_fields (field k v fs) = insert_field k (sorted v) (sorted_fields fs)

-- The text of a value, in front of a text.
unfoldable mutual
  unfolding decimal quote_units

  pub layout : Json → Text → Text
  layout null r = utf16 "null" ++ r
  layout (boolean true) r = utf16 "true" ++ r
  layout (boolean false) r = utf16 "false" ++ r
  layout (number n) r = decimal n ++ r
  layout (string s) r = b'"' ∷ (quote_units false s ++ b'"' ∷ r)
  layout (array xs) r = b'[' ∷ layout_items xs r
  layout (object fs) r = b'{' ∷ layout_fields fs r

  pub layout_items : Items → Text → Text
  layout_items end r = b']' ∷ r
  layout_items (item x xs) r = layout x (more_items xs r)

  pub more_items : Items → Text → Text
  more_items end r = b']' ∷ r
  more_items (item x xs) r = b',' ∷ layout x (more_items xs r)

  pub layout_fields : Fields → Text → Text
  layout_fields stop r = b'}' ∷ r
  layout_fields (field k v fs) r =
      b'"' ∷ (quote_units false k ++ b'"' ∷ b':' ∷ layout v (more_fields fs r))

  pub more_fields : Fields → Text → Text
  more_fields stop r = b'}' ∷ r
  more_fields (field k v fs) r =
      b',' ∷ b'"' ∷ (quote_units false k ++ b'"' ∷ b':' ∷ layout v (more_fields fs r))

-- The fields of an object with their texts, as they stand.
field_texts : Fields → List (Text × Text)
unfolding layout
field_texts stop = []
field_texts (field k v fs) = (k, layout v []) ∷ field_texts fs

insert_sorted-texts :
    (k : Text) (v : Json) (fs : Fields)
    → insert_sorted key_le (k, layout v []) (field_texts fs) ≡ field_texts (insert_field k v fs)
unfolding insert_sorted field_texts insert_field key_le
insert_sorted-texts k v stop = refl
insert_sorted-texts k v (field j w fs) = elim (Bool-cases (text_le k j)) [
  | inl e ↦ rw e refl
  | inr e ↦ rw (e, insert_sorted-texts k v fs) refl
]

quote-append : (s r : Text) → quote s ++ r ≡ b'"' ∷ (quote_units false s ++ b'"' ∷ r)
unfolding quote
quote-append s r = ap (◌∷◌ b'"') (append_assoc (quote_units false s) (b'"' ∷ []) r)

mutual
  unfolding layout

  layout-append : (v : Json) (r q : Text) → layout v r ++ q ≡ layout v (r ++ q)
  layout-append null r q = refl
  layout-append (boolean true) r q = refl
  layout-append (boolean false) r q = refl
  layout-append (number n) r q = append_assoc (decimal n) r q
  layout-append (string s) r q = ap (◌∷◌ b'"') (append_assoc (quote_units false s) (b'"' ∷ r) q)
  layout-append (array xs) r q = ap (◌∷◌ b'[') (layout_items-append xs r q)
  layout-append (object fs) r q = ap (◌∷◌ b'{') (layout_fields-append fs r q)

  layout_items-append :
      (xs : Items) (r q : Text) → layout_items xs r ++ q ≡ layout_items xs (r ++ q)
  layout_items-append end r q = refl
  layout_items-append (item x xs) r q =
      layout-append x (more_items xs r) q ∙ ap (layout x) (more_items-append xs r q)

  more_items-append : (xs : Items) (r q : Text) → more_items xs r ++ q ≡ more_items xs (r ++ q)
  more_items-append end r q = refl
  more_items-append (item x xs) r q =
      ap (◌∷◌ b',') (layout-append x (more_items xs r) q ∙ ap (layout x) (more_items-append xs r q))

  layout_fields-append :
      (fs : Fields) (r q : Text) → layout_fields fs r ++ q ≡ layout_fields fs (r ++ q)
  layout_fields-append stop r q = refl
  layout_fields-append (field k v fs) r q = ap (◌∷◌ b'"') (
      append_assoc (quote_units false k) _ q
      ∙ ap (λ t. quote_units false k ++ b'"' ∷ b':' ∷ t)
          (layout-append v (more_fields fs r) q ∙ ap (layout v) (more_fields-append fs r q)))

  more_fields-append : (fs : Fields) (r q : Text) → more_fields fs r ++ q ≡ more_fields fs (r ++ q)
  more_fields-append stop r q = refl
  more_fields-append (field k v fs) r q =
      ap (λ t. b',' ∷ b'"' ∷ t)
        (append_assoc (quote_units false k) _ q
          ∙ ap (λ t. quote_units false k ++ b'"' ∷ b':' ∷ t)
              (layout-append v (more_fields fs r) q ∙ ap (layout v) (more_fields-append fs r q)))

-- Texts after the first, each behind its comma.
after_first : List Text → Text → Text
after_first [] r = r
after_first (t ∷ ts) r = b',' ∷ (t ++ after_first ts r)

join-append : (t : Text) (ts : List Text) (r : Text) → join (t ∷ ts) ++ r ≡ t ++ after_first ts r
unfolding after_first
join-append t [] r = refl
join-append t (u ∷ ts) r = append_assoc t _ r ∙ ap (λ k. t ++ b',' ∷ k) (join-append u ts r)

entry_text-append :
    (k : Text) (v : Json) (r : Text)
    → entry_text (k, layout v []) ++ r ≡ b'"' ∷ (quote_units false k ++ b'"' ∷ b':' ∷ layout v r)
entry_text-append k v r =
    append_assoc (quote k) _ r
    ∙ quote-append k _
    ∙ ap (λ t. b'"' ∷ (quote_units false k ++ b'"' ∷ b':' ∷ t)) (layout-append v [] r)

after_fields :
    (fs : Fields) (r : Text)
    → after_first (map entry_text (field_texts fs)) (b'}' ∷ r) ≡ more_fields fs r
unfolding after_first field_texts layout
after_fields stop r = refl
after_fields (field k v fs) r =
    ap (◌∷◌ b',')
      (ap (λ t. entry_text (k, layout v []) ++ t) (after_fields fs r) ∙ entry_text-append k v _)

join_fields :
    (fs : Fields) (r : Text)
    → join (map entry_text (field_texts fs)) ++ b'}' ∷ r ≡ layout_fields fs r
unfolding field_texts layout
join_fields stop r = refl
join_fields (field k v fs) r =
    join-append (entry_text (k, layout v [])) (map entry_text (field_texts fs)) (b'}' ∷ r)
    ∙ ap (λ t. entry_text (k, layout v []) ++ t) (after_fields fs r)
    ∙ entry_text-append k v _

mutual
  unfolding canonicalize sorted layout field_texts after_first sort

  canonicalize-layout : (v : Json) (r : Text) → canonicalize v ++ r ≡ layout (sorted v) r
  canonicalize-layout null r = refl
  canonicalize-layout (boolean true) r = refl
  canonicalize-layout (boolean false) r = refl
  canonicalize-layout (number n) r = refl
  canonicalize-layout (string s) r = quote-append s r
  canonicalize-layout (array xs) r =
      ap (◌∷◌ b'[')
        (append_assoc (join (canonical_items xs)) (b']' ∷ []) r ∙ canonical_items-layout xs r)
  canonicalize-layout (object fs) r = ap (◌∷◌ b'{') (
      append_assoc (join (map entry_text (sort key_le (canonical_fields fs)))) (b'}' ∷ []) r
      ∙ ap (λ ps. join (map entry_text ps) ++ b'}' ∷ r) (canonical_fields-field_texts fs)
      ∙ join_fields (sorted_fields fs) r)

  canonical_items-layout :
      (xs : Items) (r : Text)
      → join (canonical_items xs) ++ b']' ∷ r ≡ layout_items (sorted_items xs) r
  canonical_items-layout end r = refl
  canonical_items-layout (item x xs) r =
      join-append (canonicalize x) (canonical_items xs) (b']' ∷ r)
      ∙ ap (λ t. canonicalize x ++ t) (canonical_items-after_first xs r)
      ∙ canonicalize-layout x _

  canonical_items-after_first :
      (xs : Items) (r : Text)
      → after_first (canonical_items xs) (b']' ∷ r) ≡ more_items (sorted_items xs) r
  canonical_items-after_first end r = refl
  canonical_items-after_first (item x xs) r =
      ap (◌∷◌ b',')
        (ap (λ t. canonicalize x ++ t) (canonical_items-after_first xs r) ∙ canonicalize-layout x _)

  canonical_fields-field_texts :
      (fs : Fields) → sort key_le (canonical_fields fs) ≡ field_texts (sorted_fields fs)
  canonical_fields-field_texts stop = refl
  canonical_fields-field_texts (field k v fs) =
      rw
        (
          sym (append-nil (canonicalize v)),
          canonicalize-layout v [],
          canonical_fields-field_texts fs,
        )
        (insert_sorted-texts k (sorted v) (sorted_fields fs))

-- The canonical text of a value is the layout of the sorted value.
pub canonicalize-sorted : (v : Json) → canonicalize v ≡ layout (sorted v) []
canonicalize-sorted v = sym (append-nil (canonicalize v)) ∙ canonicalize-layout v []
