-- ===== src/Audit/Sanitize.antt =====
-- What is left of a record that `sanitizeAudit` has gone through.
use haechi.Prelude.{
  ◌≡◌, refl, ap, subst, true, false, inl, inr, none, if◌then◌else◌, Bool-cases, Text, text_eq,
  text_eq_iff, Json, null, boolean, number, string, array, object, Items, end, item, Fields, stop,
  field, get,
}
use mathlib.Core.Option
use haechi.Audit.{is_forbidden, sanitize_audit, sanitize_items, sanitize_fields}

-- No object at any depth has a forbidden key.
mutual
  pub IsClean : Json → Type 0
  IsClean (array xs) = AreClean xs
  IsClean (object fs) = HasCleanKeys fs
  IsClean v = Unit

  pub AreClean : Items → Type 0
  AreClean end = Unit
  AreClean (item x xs) = IsClean x × AreClean xs

  pub HasCleanKeys : Fields → Type 0
  HasCleanKeys stop = Unit
  HasCleanKeys (field k v fs) = (is_forbidden k ≡ false) × IsClean v × HasCleanKeys fs

mutual
  unfolding sanitize_audit IsClean

  sanitize-IsClean : (v : Json) → IsClean (sanitize_audit v)
  sanitize-IsClean null = tt
  sanitize-IsClean (boolean b) = tt
  sanitize-IsClean (number n) = tt
  sanitize-IsClean (string s) = tt
  sanitize-IsClean (array xs) = sanitize_items-AreClean xs
  sanitize-IsClean (object fs) = sanitize_fields-HasCleanKeys fs

  sanitize_items-AreClean : (xs : Items) → AreClean (sanitize_items xs)
  sanitize_items-AreClean end = tt
  sanitize_items-AreClean (item x xs) = (sanitize-IsClean x, sanitize_items-AreClean xs)

  sanitize_fields-HasCleanKeys : (fs : Fields) → HasCleanKeys (sanitize_fields fs)
  sanitize_fields-HasCleanKeys stop = tt
  sanitize_fields-HasCleanKeys (field k v fs) = elim (Bool-cases (is_forbidden k)) [
    | inl e ↦ rw e (sanitize_fields-HasCleanKeys fs)
    | inr e ↦ rw e (e, sanitize-IsClean v, sanitize_fields-HasCleanKeys fs)
  ]

mutual
  unfolding sanitize_audit IsClean

  IsClean-kept : (v : Json) → IsClean v → sanitize_audit v ≡ v
  IsClean-kept null c = refl
  IsClean-kept (boolean b) c = refl
  IsClean-kept (number n) c = refl
  IsClean-kept (string s) c = refl
  IsClean-kept (array xs) c = ap array (AreClean-kept xs c)
  IsClean-kept (object fs) c = ap object (HasCleanKeys-kept fs c)

  AreClean-kept : (xs : Items) → AreClean xs → sanitize_items xs ≡ xs
  AreClean-kept end c = refl
  AreClean-kept (item x xs) c = cc (IsClean-kept x c.0, AreClean-kept xs c.1)

  HasCleanKeys-kept : (fs : Fields) → HasCleanKeys fs → sanitize_fields fs ≡ fs
  HasCleanKeys-kept stop c = refl
  HasCleanKeys-kept (field k v fs) c = rw (c.0) (cc (IsClean-kept v c.1, HasCleanKeys-kept fs c.2))

get-sanitize :
    (k : Text) (fs : Fields)
    → get k (sanitize_fields fs)
      ≡ (if is_forbidden k then none else Option.map sanitize_audit (get k fs))
unfolding get sanitize_audit
get-sanitize k stop = elim (Bool-cases (is_forbidden k)) [ inl e ↦ rw e refl | inr e ↦ rw e refl ]
get-sanitize k (field j v fs) = elim (Bool-cases (is_forbidden j)) [
  | inl e ↦ elim (Bool-cases (text_eq j k)) [
    | inl h ↦
        let same : is_forbidden k ≡ true =
          subst (λ i. is_forbidden i ≡ true) ((text_eq_iff j k).0 h) e in
        rw (e, h, get-sanitize k fs, same) refl
    | inr h ↦ rw (e, h) (get-sanitize k fs)
  ]
  | inr e ↦ elim (Bool-cases (text_eq j k)) [
    | inl h ↦
        let same : is_forbidden k ≡ false =
          subst (λ i. is_forbidden i ≡ false) ((text_eq_iff j k).0 h) e in
        rw (e, h, same) refl
    | inr h ↦ rw (e, h) (get-sanitize k fs)
  ]
]

-- Of an event, `sanitizeAudit` leaves no forbidden key in any object at any depth; doing it twice is
-- doing it once; and the event keeps exactly its other keys, each with its value sanitized.
pub sanitize_audit-IsClean :
    (event : Fields) (k : Text)
    → IsClean (sanitize_audit (object event))
      × (sanitize_audit (sanitize_audit (object event)) ≡ sanitize_audit (object event))
      × (get k (sanitize_fields event)
          ≡ (if is_forbidden k then none else Option.map sanitize_audit (get k event)))
sanitize_audit-IsClean event k =
    let clean = sanitize-IsClean (object event) in
    (clean, IsClean-kept _ clean, get-sanitize k event)
