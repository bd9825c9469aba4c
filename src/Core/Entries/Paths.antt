-- ===== src/Core/Entries/Paths.antt =====
-- Where the entries of a payload stand: their paths lead back to their texts.
use haechi.Prelude.{
  ℕ, suc, ◌+◌, ◌≡◌, refl, sym, ap, ◌∙◌, subst, inl, inr, Bool, true, false, Bool-cases, Option,
  none, some, List, [], ◌∷◌, ◌++◌, leb, arith, if◌then◌else◌, length, All, append_assoc, append-nil,
  Text, text_eq, text_eq_iff, Json, null, boolean, number, string, array, object, Items, end, item,
  Fields, stop, field, get,
}
use haechi.Audit.{decimal}
use haechi.Stream.Paths.{Part, key, index, nth, part_of, get_by_path}
use haechi.Core.{Kind, in_value, in_key, in_number}
use haechi.Core.Entries.{
  Entry, entry, append_all, collect_string_entries, collect_items, collect_fields,
}

unfoldable mutual
  -- Every object of the value has distinct keys, as those of `JSON.parse` have.
  pub HasDistinctKeys : Json → Type 0
  HasDistinctKeys (array xs) = AreDistinctItems xs
  HasDistinctKeys (object fs) = AreDistinctFields fs
  HasDistinctKeys _ = Unit

  pub AreDistinctItems : Items → Type 0
  AreDistinctItems end = Unit
  AreDistinctItems (item v xs) = HasDistinctKeys v × AreDistinctItems xs

  pub AreDistinctFields : Fields → Type 0
  AreDistinctFields stop = Unit
  AreDistinctFields (field k v fs) = (get k fs ≡ none) × (HasDistinctKeys v × AreDistinctFields fs)

-- What stands at an entry's path, by its kind: its text, the number in digits, or a member with its key.
abbrev pub IsAt : Kind → Text → List Part → Json → Type 0
unfolding get_by_path
IsAt in_value text path v = get_by_path path (some v) ≡ some (string text)
IsAt in_number text path v =
    (n : ℕ) × (get_by_path path (some v) ≡ some (number n)) × (text ≡ decimal n)
IsAt in_key text path v =
    (parent : List Part) × (w : Json) × (path ≡ parent ++ key text ∷ [])
    × (get_by_path path (some v) ≡ some w)

abbrev pub StandsIn : Json → List Part → Entry → Type 0
unfolding IsAt
StandsIn v path e = (rest : List Part) × (e.path ≡ path ++ rest) × IsAt e.kind e.value rest v

IsAt-inside :
    (kind : Kind) (text : Text) (p : Part) (rest : List Part) (v x : Json)
    → part_of p v ≡ some x
    → IsAt kind text rest x
    → IsAt kind text (p ∷ rest) v
unfolding get_by_path
IsAt-inside in_value text p rest v x e h = ap (get_by_path rest) e ∙ h
IsAt-inside in_number text p rest v x e (n, h, d) = (n, ap (get_by_path rest) e ∙ h, d)
IsAt-inside in_key text p rest v x e (parent, w, s, h) =
    (p ∷ parent, w, ap (λ ps. p ∷ ps) s, ap (get_by_path rest) e ∙ h)

StandsIn-inside :
    (p : Part) (path : List Part) (v x : Json) (e : Entry)
    → part_of p v ≡ some x
    → StandsIn x (path ++ p ∷ []) e
    → StandsIn v path e
unfolding IsAt
StandsIn-inside p path v x e h (rest, s, at) =
    (p ∷ rest, s ∙ append_assoc path (p ∷ []) rest, IsAt-inside e.kind e.value p rest v x h at)

module _ {A : Type 0} where
  append_all-some :
      (a b : Option (List A)) (es : List A)
      → append_all a b ≡ some es
      → (xs : List A) × (ys : List A) × (a ≡ some xs) × (b ≡ some ys) × (es ≡ xs ++ ys)
  append_all-some none b es h = cc
  append_all-some (some xs) none es h = cc
  append_all-some (some xs) (some ys) es h = (xs, ys, refl, refl, same h)
    where
      same : {s t : List A} → ◌≡◌ {A = Option (List A)} (some s) (some t) → t ≡ s
      same e = cc

module _ {A : Type 0} (P : A → Type 0) where
  All-join : (xs ys : List A) → All P xs → All P ys → All P (xs ++ ys)
  All-join [] ys h k = k
  All-join (x ∷ xs) ys h k = (h.0, All-join xs ys h.1 k)

  All-same : (xs es : List A) → some xs ≡ some es → All P xs → All P es
  All-same xs es e h = subst (All P) (same e) h
    where
      same : {s t : List A} → ◌≡◌ {A = Option (List A)} (some s) (some t) → s ≡ t
      same e = cc

All-inside :
    (p : Part) (path : List Part) (v x : Json) (es : List Entry)
    → part_of p v ≡ some x
    → All (StandsIn x (path ++ p ∷ [])) es
    → All (StandsIn v path) es
All-inside p path v x [] h a = tt
All-inside p path v x (e ∷ es) h a =
    (StandsIn-inside p path v x e h a.0, All-inside p path v x es h a.1)

inner_some :
    (b : Bool) (inner : Option (List Entry)) (es : List Entry)
    → (if b then none else inner) ≡ some es
    → inner ≡ some es
inner_some true inner es h = cc
inner_some false inner es h = h

module _ (short_hash : Text → Text) where
  string_stands :
      (path : List Part) (s : Text) → StandsIn (string s) path (entry short_hash path s in_value)
  unfolding IsAt get_by_path entry
  string_stands path s = ([], sym (append-nil path), refl)

  number_stands :
      (path : List Part) (n : ℕ)
      → StandsIn (number n) path (entry short_hash path (decimal n) in_number)
  unfolding IsAt get_by_path entry
  number_stands path n = ([], sym (append-nil path), (n, refl, refl))

  key_stands :
      (path : List Part) (k : Text) (v x : Json)
      → part_of (key k) v ≡ some x
      → StandsIn v path (entry short_hash (path ++ key k ∷ []) k in_key)
  unfolding IsAt get_by_path entry
  key_stands path k v x h = (key k ∷ [], refl, ([], x, refl, ap (get_by_path []) h))

get-later :
    (k j : Text) (x w : Json) (fs : Fields)
    → get k fs ≡ none
    → get j fs ≡ some x
    → get j (field k w fs) ≡ some x
unfolding get
get-later k j x w fs n h = elim (Bool-cases (text_eq k j)) [
  | inl e ↦ absurd (clash (sym (subst (λ i. get i fs ≡ none) ((text_eq_iff k j).0 e) n) ∙ h))
  | inr e ↦ rw e h
]
  where
    clash : ◌≡◌ {A = Option Json} none (some x) → ⊥
    clash e = cc

get-here : (k : Text) (w : Json) (fs : Fields) → get k (field k w fs) ≡ some w
unfolding get
get-here k w fs = rw ((text_eq_iff k k).1 refl) refl

module _ (short_hash : Text → Text) (limit : ℕ) where
  mutual
    unfolding collect_string_entries HasDistinctKeys part_of nth

    collect-StandsIn :
        (v : Json) (path : List Part) (es : List Entry)
        → HasDistinctKeys v
        → collect_string_entries short_hash limit v path ≡ some es
        → All (StandsIn v path) es
    collect-StandsIn null path es d h = All-same (StandsIn null path) [] es h tt
    collect-StandsIn (boolean b) path es d h = All-same (StandsIn (boolean b) path) [] es h tt
    collect-StandsIn (number n) path es d h =
        All-same (StandsIn (number n) path) (entry short_hash path (decimal n) in_number ∷ []) es h
          (number_stands short_hash path n, tt)
    collect-StandsIn (string s) path es d h =
        All-same (StandsIn (string s) path) (entry short_hash path s in_value ∷ []) es h
          (string_stands short_hash path s, tt)
    collect-StandsIn (array xs) path es d h =
        items-StandsIn (array xs) xs path 0 es d (λ j x e. ap (λ i. nth i xs) (omega arith) ∙ e)
          (inner_some (leb limit (length path)) (collect_items short_hash limit xs path 0) es h)
    collect-StandsIn (object fs) path es d h =
        fields-StandsIn (object fs) fs path es d (λ k x e. e)
          (inner_some (leb limit (length path)) (collect_fields short_hash limit fs path) es h)

    items-StandsIn :
        (v : Json) (xs : Items) (path : List Part) (n : ℕ) (es : List Entry)
        → AreDistinctItems xs
        → ((j : ℕ) (x : Json) → nth j xs ≡ some x → part_of (index (n + j)) v ≡ some x)
        → collect_items short_hash limit xs path n ≡ some es
        → All (StandsIn v path) es
    items-StandsIn v end path n es d at h = All-same (StandsIn v path) [] es h tt
    items-StandsIn v (item x xs) path n es d at h =
        let inner = collect_string_entries short_hash limit x (path ++ index n ∷ []) in
        let parts = append_all-some inner (collect_items short_hash limit xs path (suc n)) es h in
        let here : part_of (index n) v ≡ some x =
          ap (λ i. part_of (index i) v) (omega arith) ∙ at 0 x refl in
        subst (All (StandsIn v path)) (sym parts.4) (
          All-join (StandsIn v path) parts.0 parts.1
            (All-inside (index n) path v x parts.0 here
              (collect-StandsIn x (path ++ index n ∷ []) parts.0 d.0 parts.2))
            (items-StandsIn v xs path (suc n) parts.1 d.1
              (λ j y e. ap (λ i. part_of (index i) v) (omega arith) ∙ at (suc j) y e) parts.3))

    fields-StandsIn :
        (v : Json) (fs : Fields) (path : List Part) (es : List Entry)
        → AreDistinctFields fs
        → ((k : Text) (x : Json) → get k fs ≡ some x → part_of (key k) v ≡ some x)
        → collect_fields short_hash limit fs path ≡ some es
        → All (StandsIn v path) es
    fields-StandsIn v stop path es d at h = All-same (StandsIn v path) [] es h tt
    fields-StandsIn v (field k x fs) path es d at h =
        let first = entry short_hash (path ++ key k ∷ []) k in_key ∷ [] in
        let inner = collect_string_entries short_hash limit x (path ++ key k ∷ []) in
        let rest = collect_fields short_hash limit fs path in
        let outer = append_all-some (some first) (append_all inner rest) es h in
        let parts = append_all-some inner rest outer.1 outer.3 in
        let here : part_of (key k) v ≡ some x = at k x (get-here k x fs) in
        subst (All (StandsIn v path)) (sym outer.4) (
          All-join (StandsIn v path) outer.0 outer.1
            (All-same (StandsIn v path) first outer.0 outer.2
              (key_stands short_hash path k v x here, tt))
            (subst (All (StandsIn v path)) (sym parts.4) (
              All-join (StandsIn v path) parts.0 parts.1
                (All-inside (key k) path v x parts.0 here
                  (collect-StandsIn x (path ++ key k ∷ []) parts.0 d.1.0 parts.2))
                (fields-StandsIn v fs path parts.1 d.1.1
                  (λ j y e. at j y (get-later k j y x fs d.0 e)) parts.3))))

  -- Every entry that is collected of a payload whose objects have distinct keys names the place it came
  -- from: at its path the payload has the entry's text, the number whose digits it is, or a member under
  -- the key that it is.
  pub collect_string_entries-StandsIn :
      (v : Json) (es : List Entry)
      → HasDistinctKeys v
      → collect_string_entries short_hash limit v [] ≡ some es
      → All (StandsIn v []) es
  collect_string_entries-StandsIn v es d h = collect-StandsIn v [] es d h
