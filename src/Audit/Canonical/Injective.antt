-- ===== src/Audit/Canonical/Injective.antt =====
-- Two values with one canonical text are the same up to the order of their objects' fields. A number of a
-- value is a natural number.
use haechi.Prelude.{
  ◌≡◌, refl, sym, ap, ◌∙◌, ◌↔◌, [], Text, Json, null, boolean, number, string, array, object, Items,
  end, item, Fields, stop, field,
}
use haechi.Audit.{canonicalize}
use haechi.Audit.Canonical.Numbers.{IsDelimited}
use haechi.Audit.Canonical.Layout.{
  sorted, layout, layout_items, more_items, layout_fields, more_fields, canonicalize-sorted,
}
use haechi.Audit.Canonical.Steps.{
  more_items-IsDelimited, more_fields-IsDelimited, null_step, boolean_step, number_step,
  string_step, array_step, object_step, items_end, items_apart, items_step, more_end, more_apart,
  more_step, fields_end, fields_apart, fields_step, more_fields_end, more_fields_apart,
  more_fields_step,
}

same_items : (x y : Json) (xs ys : Items) → x ≡ y → xs ≡ ys → item x xs ≡ item y ys
same_items x y xs ys p q = cc

same_fields :
    (k j : Text) (v w : Json) (fs gs : Fields)
    → k ≡ j
    → v ≡ w
    → fs ≡ gs
    → field k v fs ≡ field j w gs
same_fields k j v w fs gs p q r = cc

mutual
  layout_injective :
      (v w : Json) (r s : Text)
      → layout v r ≡ layout w s
      → IsDelimited r
      → IsDelimited s
      → (v ≡ w) × (r ≡ s)
  layout_injective null w r s e d f = null_step r s w e
  layout_injective (boolean b) w r s e d f = boolean_step r s b w e
  layout_injective (number n) w r s e d f = number_step r s n w e d f
  layout_injective (string t) w r s e d f = string_step r s t w e
  layout_injective (array xs) w r s e d f =
      let o = array_step r s xs w e in
      let p = layout_items_injective xs o.0 r s o.2 in (ap array p.0 ∙ sym o.1, p.1)
  layout_injective (object fs) w r s e d f =
      let o = object_step r s fs w e in
      let p = layout_fields_injective fs o.0 r s o.2 in (ap object p.0 ∙ sym o.1, p.1)

  layout_items_injective :
      (xs ys : Items) (r s : Text) → layout_items xs r ≡ layout_items ys s → (xs ≡ ys) × (r ≡ s)
  layout_items_injective end end r s e = (refl, items_end r s e)
  layout_items_injective end (item y ys) r s e = absurd (items_apart r s y ys e)
  layout_items_injective (item x xs) end r s e = absurd (items_apart s r x xs (sym e))
  layout_items_injective (item x xs) (item y ys) r s e =
      let p =
        layout_injective x y _ _ (items_step r s x y xs ys e) (more_items-IsDelimited xs r)
          (more_items-IsDelimited ys s) in
      let q = more_items_injective xs ys r s p.1 in (same_items x y xs ys p.0 q.0, q.1)

  more_items_injective :
      (xs ys : Items) (r s : Text) → more_items xs r ≡ more_items ys s → (xs ≡ ys) × (r ≡ s)
  more_items_injective end end r s e = (refl, more_end r s e)
  more_items_injective end (item y ys) r s e = absurd (more_apart r s y ys e)
  more_items_injective (item x xs) end r s e = absurd (more_apart s r x xs (sym e))
  more_items_injective (item x xs) (item y ys) r s e =
      let p =
        layout_injective x y _ _ (more_step r s x y xs ys e) (more_items-IsDelimited xs r)
          (more_items-IsDelimited ys s) in
      let q = more_items_injective xs ys r s p.1 in (same_items x y xs ys p.0 q.0, q.1)

  layout_fields_injective :
      (fs gs : Fields) (r s : Text) → layout_fields fs r ≡ layout_fields gs s → (fs ≡ gs) × (r ≡ s)
  layout_fields_injective stop stop r s e = (refl, fields_end r s e)
  layout_fields_injective stop (field j w gs) r s e = absurd (fields_apart r s j w gs e)
  layout_fields_injective (field k v fs) stop r s e = absurd (fields_apart s r k v fs (sym e))
  layout_fields_injective (field k v fs) (field j w gs) r s e =
      let h = fields_step r s k j v w fs gs e in
      let p =
        layout_injective v w _ _ h.1 (more_fields-IsDelimited fs r)
          (more_fields-IsDelimited gs s) in
      let q = more_fields_injective fs gs r s p.1 in (same_fields k j v w fs gs h.0 p.0 q.0, q.1)

  more_fields_injective :
      (fs gs : Fields) (r s : Text) → more_fields fs r ≡ more_fields gs s → (fs ≡ gs) × (r ≡ s)
  more_fields_injective stop stop r s e = (refl, more_fields_end r s e)
  more_fields_injective stop (field j w gs) r s e = absurd (more_fields_apart r s j w gs e)
  more_fields_injective (field k v fs) stop r s e = absurd (more_fields_apart s r k v fs (sym e))
  more_fields_injective (field k v fs) (field j w gs) r s e =
      let h = more_fields_step r s k j v w fs gs e in
      let p =
        layout_injective v w _ _ h.1 (more_fields-IsDelimited fs r)
          (more_fields-IsDelimited gs s) in
      let q = more_fields_injective fs gs r s p.1 in (same_fields k j v w fs gs h.0 p.0 q.0, q.1)

-- Two values whose numbers, at every depth, are natural numbers printed in digits have one canonical text
-- exactly when they are the same once the fields of every object, at every depth, are put in the order of
-- their keys.
pub canonicalize_iff : (v w : Json) → (canonicalize v ≡ canonicalize w) ↔ (sorted v ≡ sorted w)
canonicalize_iff v w = (
  λ e.
      (layout_injective (sorted v) (sorted w) [] []
        (sym (canonicalize-sorted v) ∙ e ∙ canonicalize-sorted w) tt tt).0,
  λ e. canonicalize-sorted v ∙ ap (λ x. layout x []) e ∙ sym (canonicalize-sorted w),
)
