-- ===== src/Core/Entries/Depth.antt =====
-- The bound on the nesting of a payload.
use haechi.Prelude.{
  ℕ, suc, ◌+◌, ◌≤◌, ◌≡◌, refl, ap, ◌∙◌, inl, inr, Bool-cases, ◌&&◌, Option, none, some, List, [],
  ◌∷◌, ◌++◌, leb, max, arith, if◌then◌else◌, is_some, length, length-append, Text, Json, null,
  boolean, number, string, array, object, Items, end, item, Fields, stop, field,
}
use haechi.Stream.Paths.{Part, key, index}
use haechi.Core.{in_key}
use haechi.Core.Entries.{
  Entry, entry, append_all, collect_string_entries, collect_items, collect_fields,
}

unfoldable mutual
  -- The number of arrays and objects around the deepest value, itself included.
  pub depth : Json → ℕ
  depth (array xs) = suc (depth_items xs)
  depth (object fs) = suc (depth_fields fs)
  depth _ = 0

  pub depth_items : Items → ℕ
  depth_items end = 0
  depth_items (item v xs) = max (depth v) (depth_items xs)

  pub depth_fields : Fields → ℕ
  depth_fields stop = 0
  depth_fields (field k v fs) = max (depth v) (depth_fields fs)

append_all-is_some :
    {A : Type 0} (xs ys : Option (List A)) → is_some (append_all xs ys) ≡ (is_some xs && is_some ys)
append_all-is_some none ys = refl
append_all-is_some (some xs) none = refl
append_all-is_some (some xs) (some ys) = refl

length-snoc : (path : List Part) (p : Part) → length (path ++ p ∷ []) ≡ length path + 1
length-snoc path p = length-append path (p ∷ [])

fits : (n a b m : ℕ) → (leb (n + 1 + a) m && leb (n + suc b) m) ≡ leb (n + suc (max a b)) m
fits n a b m = ground arith

module _ (short_hash : Text → Text) (limit : ℕ) where
  container :
      (inner : Option (List Entry)) (n d : ℕ)
      → n ≤ limit
      → (suc n ≤ limit → is_some inner ≡ leb (n + suc d) limit)
      → is_some (if leb limit n then none else inner) ≡ leb (n + suc d) limit
  container inner n d l h = elim (Bool-cases (leb limit n)) [
    | inl e ↦ rw e (ground arith)
    | inr e ↦ rw e (h (ground arith))
  ]

  both :
      (inner rest : Option (List Entry)) (path : List Part) (p : Part) (a b : ℕ)
      → is_some inner ≡ leb (length (path ++ p ∷ []) + a) limit
      → is_some rest ≡ leb (length path + suc b) limit
      → is_some (append_all inner rest) ≡ leb (length path + suc (max a b)) limit
  both inner rest path p a b h k =
      append_all-is_some inner rest
      ∙ ap (λ x. x && is_some rest) (h ∙ ap (λ m. leb (m + a) limit) (length-snoc path p))
      ∙ ap (λ x. leb (length path + 1 + a) limit && x) k
      ∙ fits (length path) a b limit

  mutual
    unfolding collect_string_entries depth

    collect-depth :
        (v : Json) (path : List Part)
        → length path ≤ limit
        → is_some (collect_string_entries short_hash limit v path)
          ≡ leb (length path + depth v) limit
    collect-depth null path l = ground arith
    collect-depth (boolean b) path l = ground arith
    collect-depth (number n) path l = ground arith
    collect-depth (string s) path l = ground arith
    collect-depth (array xs) path l =
        container (collect_items short_hash limit xs path 0) (length path) (depth_items xs) l
          (λ s. collect_items-depth xs path 0 s)
    collect-depth (object fs) path l =
        container (collect_fields short_hash limit fs path) (length path) (depth_fields fs) l
          (λ s. collect_fields-depth fs path s)

    collect_items-depth :
        (xs : Items) (path : List Part) (n : ℕ)
        → suc (length path) ≤ limit
        → is_some (collect_items short_hash limit xs path n)
          ≡ leb (length path + suc (depth_items xs)) limit
    collect_items-depth end path n l = ground arith
    collect_items-depth (item v xs) path n l =
        both (collect_string_entries short_hash limit v (path ++ index n ∷ []))
          (collect_items short_hash limit xs path (suc n)) path (index n) (depth v) (depth_items xs)
          (collect-depth v (path ++ index n ∷ []) (omega (arith, length-snoc path (index n))))
          (collect_items-depth xs path (suc n) l)

    collect_fields-depth :
        (fs : Fields) (path : List Part)
        → suc (length path) ≤ limit
        → is_some (collect_fields short_hash limit fs path)
          ≡ leb (length path + suc (depth_fields fs)) limit
    collect_fields-depth stop path l = ground arith
    collect_fields-depth (field k v fs) path l =
        append_all-is_some (some (entry short_hash (path ++ key k ∷ []) k in_key ∷ [])) (
          append_all (collect_string_entries short_hash limit v (path ++ key k ∷ []))
            (collect_fields short_hash limit fs path))
        ∙ both (collect_string_entries short_hash limit v (path ++ key k ∷ []))
            (collect_fields short_hash limit fs path) path (key k) (depth v) (depth_fields fs)
            (collect-depth v (path ++ key k ∷ []) (omega (arith, length-snoc path (key k))))
            (collect_fields-depth fs path l)

  -- The texts of a payload are collected exactly when its arrays and objects are nested no deeper than the
  -- limit; any deeper one is an error, whatever it holds.
  pub collect_string_entries-depth :
      (v : Json) → is_some (collect_string_entries short_hash limit v []) ≡ leb (depth v) limit
  collect_string_entries-depth v =
      collect-depth v [] (omega arith) ∙ ap (λ n. leb n limit) (omega arith)
