-- ===== src/Audit/Canonical/Steps.antt =====
-- What equal layouts say of the values' parts.
use haechi.Prelude.{
  ℕ, ◌≡◌, refl, sym, ap, ◌∙◌, Bool, true, false, [], ◌∷◌, ◌++◌, drop, arith, Text, Json, null,
  boolean, number, string, array, object, Items, end, item, Fields, stop, field,
}
use haechi.Audit.{quote_units}
use haechi.Audit.Canonical.Numbers.{IsDelimited, decimal_injective}
use haechi.Audit.Canonical.Quotes.{quote_units_injective}
use haechi.Audit.Canonical.Layout.{layout, layout_items, more_items, layout_fields, more_fields}
use haechi.Audit.Canonical.Kinds.{
  kind, null_of, true_of, false_of, number_of, string_of, array_of, object_of, same_kind,
  layout-open,
}

pub more_items-IsDelimited : (xs : Items) (r : Text) → IsDelimited (more_items xs r)
unfolding layout
more_items-IsDelimited end r = refl
more_items-IsDelimited (item x xs) r = refl

pub more_fields-IsDelimited : (fs : Fields) (r : Text) → IsDelimited (more_fields fs r)
unfolding layout
more_fields-IsDelimited stop r = refl
more_fields-IsDelimited (field k v fs) r = refl

head_apart : (c d : ℕ) (s t : Text) → c ∷ s ≡ d ∷ t → c ≡ d
head_apart c d s t e = ap (first_of_text c) e
  where
    first_of_text : ℕ → Text → ℕ
    first_of_text d [] = d
    first_of_text d (c ∷ s) = c

comma_apart : (s t : Text) → b',' ∷ s ≡ b']' ∷ t → ⊥
comma_apart s t e = omega (arith, head_apart b',' b']' s t e)

quote_apart : (s t : Text) → b'"' ∷ s ≡ b'}' ∷ t → ⊥
quote_apart s t e = omega (arith, head_apart b'"' b'}' s t e)

brace_apart : (s t : Text) → b',' ∷ s ≡ b'}' ∷ t → ⊥
brace_apart s t e = omega (arith, head_apart b',' b'}' s t e)

-- What equal layouts say of their parts.
module _ (r s : Text) where
  pub null_step : (w : Json) → layout null r ≡ layout w s → (null ≡ w) × (r ≡ s)
  unfolding layout kind
  null_step w e =
      let o = null_of w (same_kind null w r s e) in
      (sym o, ap (drop 4) (e ∙ ap (λ x. layout x s) o))

  pub boolean_step :
      (b : Bool) (w : Json) → layout (boolean b) r ≡ layout w s → (boolean b ≡ w) × (r ≡ s)
  unfolding layout kind
  boolean_step true w e =
      let o = true_of w (same_kind (boolean true) w r s e) in
      (sym o, ap (drop 4) (e ∙ ap (λ x. layout x s) o))
  boolean_step false w e =
      let o = false_of w (same_kind (boolean false) w r s e) in
      (sym o, ap (drop 5) (e ∙ ap (λ x. layout x s) o))

  pub number_step :
      (n : ℕ) (w : Json)
      → layout (number n) r ≡ layout w s
      → IsDelimited r
      → IsDelimited s
      → (number n ≡ w) × (r ≡ s)
  unfolding layout kind
  number_step n w e d f =
      let o = number_of w (same_kind (number n) w r s e) in
      let p = decimal_injective n o.0 r s (e ∙ ap (λ x. layout x s) o.1) d f in
      (ap number p.0 ∙ sym o.1, p.1)

  pub string_step :
      (t : Text) (w : Json) → layout (string t) r ≡ layout w s → (string t ≡ w) × (r ≡ s)
  unfolding layout kind
  string_step t w e =
      let o = string_of w (same_kind (string t) w r s e) in
      let p = quote_units_injective false t o.0 r s (ap (drop 1) (e ∙ ap (λ x. layout x s) o.1)) in
      (ap string p.0 ∙ sym o.1, p.1)

  pub array_step :
      (xs : Items) (w : Json)
      → layout (array xs) r ≡ layout w s
      → (ys : Items) × (w ≡ array ys) × (layout_items xs r ≡ layout_items ys s)
  unfolding layout kind
  array_step xs w e =
      let o = array_of w (same_kind (array xs) w r s e) in
      (o.0, o.1, ap (drop 1) (e ∙ ap (λ x. layout x s) o.1))

  pub object_step :
      (fs : Fields) (w : Json)
      → layout (object fs) r ≡ layout w s
      → (gs : Fields) × (w ≡ object gs) × (layout_fields fs r ≡ layout_fields gs s)
  unfolding layout kind
  object_step fs w e =
      let o = object_of w (same_kind (object fs) w r s e) in
      (o.0, o.1, ap (drop 1) (e ∙ ap (λ x. layout x s) o.1))

  pub items_end : layout_items end r ≡ layout_items end s → r ≡ s
  unfolding layout
  items_end e = ap (drop 1) e

  pub items_apart : (y : Json) (ys : Items) → layout_items end r ≡ layout_items (item y ys) s → ⊥
  unfolding layout
  items_apart y ys e = layout-open y _ r (sym e)

  pub items_step :
      (x y : Json) (xs ys : Items)
      → layout_items (item x xs) r ≡ layout_items (item y ys) s
      → layout x (more_items xs r) ≡ layout y (more_items ys s)
  unfolding layout
  items_step x y xs ys e = e

  pub more_end : more_items end r ≡ more_items end s → r ≡ s
  unfolding layout
  more_end e = ap (drop 1) e

  pub more_apart : (y : Json) (ys : Items) → more_items end r ≡ more_items (item y ys) s → ⊥
  unfolding layout
  more_apart y ys e = comma_apart _ _ (sym e)

  pub more_step :
      (x y : Json) (xs ys : Items)
      → more_items (item x xs) r ≡ more_items (item y ys) s
      → layout x (more_items xs r) ≡ layout y (more_items ys s)
  unfolding layout
  more_step x y xs ys e = ap (drop 1) e

  pub fields_end : layout_fields stop r ≡ layout_fields stop s → r ≡ s
  unfolding layout
  fields_end e = ap (drop 1) e

  pub fields_apart :
      (j : Text) (w : Json) (gs : Fields)
      → layout_fields stop r ≡ layout_fields (field j w gs) s
      → ⊥
  unfolding layout
  fields_apart j w gs e = quote_apart _ _ (sym e)

  key_step :
      (k j t u : Text)
      → quote_units false k ++ b'"' ∷ b':' ∷ t ≡ quote_units false j ++ b'"' ∷ b':' ∷ u
      → (k ≡ j) × (t ≡ u)
  key_step k j t u e = let h = quote_units_injective false k j _ _ e in (h.0, ap (drop 1) h.1)

  pub fields_step :
      (k j : Text) (v w : Json) (fs gs : Fields)
      → layout_fields (field k v fs) r ≡ layout_fields (field j w gs) s
      → (k ≡ j) × (layout v (more_fields fs r) ≡ layout w (more_fields gs s))
  unfolding layout
  fields_step k j v w fs gs e = key_step k j _ _ (ap (drop 1) e)

  pub more_fields_end : more_fields stop r ≡ more_fields stop s → r ≡ s
  unfolding layout
  more_fields_end e = ap (drop 1) e

  pub more_fields_apart :
      (j : Text) (w : Json) (gs : Fields) → more_fields stop r ≡ more_fields (field j w gs) s → ⊥
  unfolding layout
  more_fields_apart j w gs e = brace_apart _ _ (sym e)

  pub more_fields_step :
      (k j : Text) (v w : Json) (fs gs : Fields)
      → more_fields (field k v fs) r ≡ more_fields (field j w gs) s
      → (k ≡ j) × (layout v (more_fields fs r) ≡ layout w (more_fields gs s))
  unfolding layout
  more_fields_step k j v w fs gs e = key_step k j _ _ (ap (drop 2) e)
