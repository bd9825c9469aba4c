-- ===== src/Stream/Stringify.antt =====
-- The text of a JSON value is one line.
use haechi.Prelude.{
  ℕ, zero, suc, ◌+◌, ◌/◌, ◌%◌, ◌≡◌, refl, inl, inr, Bool, true, false, Bool-cases, List, [], ◌∷◌,
  ◌++◌, ◌==◌, ltb, arith, map, All, Text, Json, null, boolean, number, string, array, object, Items,
  end, item, Fields, stop, field,
}
use haechi.Audit.{
  digits, decimal, hex_digit, is_lead, starts_with_trail, quote_unit, quote_units, quote, join,
  entry_text,
}
use haechi.Stream.{stringify, item_texts, field_texts}
use haechi.Stream.Lines.{IsLine}

any-append : (s t : Text) → IsLine s → IsLine t → IsLine (s ++ t)
any-append [] t h k = k
any-append (c ∷ s) t h k = ground (arith, any-append s t)

digits-IsLine : (fuel n : ℕ) → IsLine (digits fuel n)
unfolding digits
digits-IsLine zero n = ground arith
digits-IsLine (suc fuel) n = elim (Bool-cases (ltb n 10)) [
  | inl e ↦ rw e (ground arith)
  | inr e ↦ rw e (
      any-append (digits fuel (n / 10)) ((b'0' + n % 10) ∷ []) (digits-IsLine fuel (n / 10))
        (ground arith))
]

hex_digit-other : (d : ℕ) → (hex_digit d == b'\n') ≡ false
hex_digit-other d = ground arith

quote_unit-IsLine : (a b : Bool) (c : ℕ) → IsLine (quote_unit a b c)
unfolding quote_unit
quote_unit-IsLine a b c = ground (
  arith,
  hex_digit-other (c / 4096),
  hex_digit-other (c / 256 % 16),
  hex_digit-other (c / 16 % 16),
  hex_digit-other (c % 16),
)

quote_units-IsLine : (a : Bool) (s : Text) → IsLine (quote_units a s)
unfolding quote_units
quote_units-IsLine a [] = refl
quote_units-IsLine a (c ∷ s) =
    any-append (quote_unit a (starts_with_trail s) c) (quote_units (is_lead c) s)
      (quote_unit-IsLine a (starts_with_trail s) c) (quote_units-IsLine (is_lead c) s)

quote-IsLine : (s : Text) → IsLine (quote s)
unfolding quote
quote-IsLine s = any-append (quote_units false s) (b'"' ∷ []) (quote_units-IsLine false s) refl

join-IsLine : (ss : List Text) → All IsLine ss → IsLine (join ss)
join-IsLine [] h = refl
join-IsLine (s ∷ []) h = h.0
join-IsLine (s ∷ t ∷ ts) h = any-append s (b',' ∷ join (t ∷ ts)) h.0 (join-IsLine (t ∷ ts) h.1)

mutual
  unfolding stringify decimal

  pub stringify-IsLine : (v : Json) → IsLine (stringify v)
  stringify-IsLine null = refl
  stringify-IsLine (boolean true) = refl
  stringify-IsLine (boolean false) = refl
  stringify-IsLine (number n) = digits-IsLine n n
  stringify-IsLine (string s) = quote-IsLine s
  stringify-IsLine (array xs) =
      any-append (join (item_texts xs)) (b']' ∷ []) (join-IsLine (item_texts xs) (items-IsLine xs))
        refl
  stringify-IsLine (object fs) =
      any-append (join (map entry_text (field_texts fs))) (b'}' ∷ [])
        (join-IsLine (map entry_text (field_texts fs)) (fields-IsLine fs)) refl

  items-IsLine : (xs : Items) → All IsLine (item_texts xs)
  items-IsLine end = tt
  items-IsLine (item x xs) = (stringify-IsLine x, items-IsLine xs)

  fields-IsLine : (fs : Fields) → All IsLine (map entry_text (field_texts fs))
  fields-IsLine stop = tt
  fields-IsLine (field k v fs) = (
    any-append (quote k) (b':' ∷ stringify v) (quote-IsLine k) (stringify-IsLine v),
    fields-IsLine fs,
  )
