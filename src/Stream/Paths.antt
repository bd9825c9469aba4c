-- ===== src/Stream/Paths.antt =====
-- packages/stream-filter/index.mjs: `getByPath`, `setByPath` and `buildPathObject`. A path has a part; no
-- key of it names a property of a prototype, a length or an index in digits.
use haechi.Prelude.{
  ℕ, zero, suc, ◌≡◌, refl, sym, ap, ◌∙◌, Bool, true, false, Option, none, some, List, [], ◌∷◌,
  if◌then◌else◌, Text, text_eq_iff, Json, null, boolean, number, string, array, object, Items, end,
  item, stop, field, get, set, get-set,
}
use haechi.Audit.{decimal}

pub data Part : Type 0 where
  key : Text → Part
  index : ℕ → Part

unfoldable pub nth : ℕ → Items → Option Json
nth n end = none
nth zero (item v xs) = some v
nth (suc n) (item v xs) = nth n xs

abbrev pub unit_at : ℕ → Text → Option Json
unit_at n [] = none
unit_at zero (c ∷ s) = some (string (c ∷ []))
unit_at (suc n) (c ∷ s) = unit_at n s

-- An assignment to an index; an index that is passed over is written as null.
unfoldable pub set_item : ℕ → Json → Items → Items
set_item zero v end = item v end
set_item (suc n) v end = item null (set_item n v end)
set_item zero v (item w xs) = item v xs
set_item (suc n) v (item w xs) = item w (set_item n v xs)

-- `current[part]`
unfoldable pub part_of : Part → Json → Option Json
unfolding get nth decimal
part_of (key k) (object fs) = get k fs
part_of (index n) (object fs) = get (decimal n) fs
part_of (index n) (array xs) = nth n xs
part_of (index n) (string s) = unit_at n s
part_of _ _ = none

-- `current[part] = v` of an object or an array.
unfoldable pub assign : Part → Json → Json → Json
unfolding set set_item decimal
assign (key k) v (object fs) = object (set k v fs)
assign (index n) v (object fs) = object (set (decimal n) v fs)
assign (index n) v (array xs) = array (set_item n v xs)
assign _ v w = w

abbrev pub is_object : Json → Bool
is_object (array xs) = true
is_object (object fs) = true
is_object _ = false

-- The value at a path; `none` is undefined.
unfoldable pub get_by_path : List Part → Option Json → Option Json
unfolding part_of
get_by_path path none = none
get_by_path [] (some v) = some v
get_by_path (p ∷ ps) (some v) = get_by_path ps (part_of p v)

abbrev pub inner_set : (Json → Bool × Json) → Part → Json → Option Json → Bool × Json
unfolding assign
inner_set rest p v none = (false, v)
inner_set rest p v (some w) =
    if is_object w then ((rest w).0, assign p (rest w).1 v) else (false, v)

-- Whether the value was set, and the object after it.
unfoldable pub set_by_path : List Part → Json → Json → Bool × Json
unfolding part_of assign inner_set
set_by_path [] next v = (false, v)
set_by_path (p ∷ []) next v = if is_object v then (true, assign p next v) else (false, v)
set_by_path (p ∷ q ∷ ps) next v = inner_set (λ w. set_by_path (q ∷ ps) next w) p v (part_of p v)

abbrev pub holder : Part → Json → Json
unfolding set_item
holder (key k) v = object (field k v stop)
holder (index n) v = array (set_item n v end)

unfoldable pub build_path_object : List Part → Json → Json
unfolding holder
build_path_object [] leaf = leaf
build_path_object (p ∷ ps) leaf = holder p (build_path_object ps leaf)

nth-set_item : (n : ℕ) (v : Json) (xs : Items) → nth n (set_item n v xs) ≡ some v
unfolding nth set_item
nth-set_item zero v end = refl
nth-set_item zero v (item w xs) = refl
nth-set_item (suc n) v end = nth-set_item n v end
nth-set_item (suc n) v (item w xs) = nth-set_item n v xs

part_of-assign :
    (p : Part) (w u v : Json)
    → part_of p v ≡ some u
    → is_object v ≡ true
    → part_of p (assign p w v) ≡ some w
unfolding part_of assign
part_of-assign (key k) w u (object fs) h o = get-set k w fs
part_of-assign (index n) w u (object fs) h o = get-set (decimal n) w fs
part_of-assign (index n) w u (array xs) h o = nth-set_item n w xs
part_of-assign (key k) w u (array xs) h o = cc
part_of-assign (key k) w u (string s) h o = cc
part_of-assign (index n) w u (string s) h o = cc
part_of-assign (key k) w u null h o = cc
part_of-assign (index n) w u null h o = cc
part_of-assign (key k) w u (boolean b) h o = cc
part_of-assign (index n) w u (boolean b) h o = cc
part_of-assign (key k) w u (number m) h o = cc
part_of-assign (index n) w u (number m) h o = cc

-- What has an object for a part is an object.
part_of-is_object :
    (p : Part) (v u : Json) → part_of p v ≡ some u → is_object u ≡ true → is_object v ≡ true
unfolding part_of
part_of-is_object p (array xs) u h o = refl
part_of-is_object p (object fs) u h o = refl
part_of-is_object (index n) (string s) u h o = absurd (units n s u h o)
  where
    clash : ◌≡◌ {A = Bool} false true → ⊥
    clash e = cc

    units : (n : ℕ) (s : Text) (u : Json) → unit_at n s ≡ some u → is_object u ≡ true → ⊥
    units n [] u h o = cc
    units zero (c ∷ s) u h o = let e : u ≡ string (c ∷ []) = cc in clash (sym (ap is_object e) ∙ o)
    units (suc n) (c ∷ s) u h o = units n s u h o
part_of-is_object (key k) (string s) u h o = cc
part_of-is_object (key k) null u h o = cc
part_of-is_object (index n) null u h o = cc
part_of-is_object (key k) (boolean b) u h o = cc
part_of-is_object (index n) (boolean b) u h o = cc
part_of-is_object (key k) (number m) u h o = cc
part_of-is_object (index n) (number m) u h o = cc

part_of-holder : (p : Part) (v : Json) → part_of p (holder p v) ≡ some v
unfolding part_of holder get
part_of-holder (key k) v = rw ((text_eq_iff k k).1 refl) refl
part_of-holder (index n) v = nth-set_item n v end

-- What `buildPathObject` makes has the leaf at the path.
pub get_by_path-build_path_object :
    (path : List Part) (leaf : Json)
    → get_by_path path (some (build_path_object path leaf)) ≡ some leaf
unfolding get_by_path build_path_object
get_by_path-build_path_object [] leaf = refl
get_by_path-build_path_object (p ∷ ps) leaf =
    ap (get_by_path ps) (part_of-holder p (build_path_object ps leaf))
    ∙ get_by_path-build_path_object ps leaf

found_part :
    (ps : List Part) (o : Option Json) (old : Json)
    → get_by_path ps o ≡ some old
    → (w : Json) × (o ≡ some w)
unfolding get_by_path
found_part ps none old h = absurd (gone ps old h)
  where
    gone : (ps : List Part) (old : Json) → get_by_path ps none ≡ some old → ⊥
    gone ps old h = cc
found_part ps (some w) old h = (w, refl)

set_by_path-last :
    (p : Part) (new v : Json)
    → set_by_path (p ∷ []) new v ≡ (if is_object v then (true, assign p new v) else (false, v))
unfolding set_by_path
set_by_path-last p new v = refl

set_by_path-inner :
    (p q : Part) (ps : List Part) (new v w : Json)
    → part_of p v ≡ some w
    → set_by_path (p ∷ q ∷ ps) new v ≡ (
        if is_object w
        then ((set_by_path (q ∷ ps) new w).0, assign p (set_by_path (q ∷ ps) new w).1 v)
        else (false, v))
unfolding set_by_path
set_by_path-inner p q ps new v w e = rw e refl

set_fails :
    (b : Bool) (done undone : Bool × Json)
    → undone.0 ≡ false
    → (if b then done else undone).0 ≡ true
    → b ≡ true
set_fails true done undone n h = refl
set_fails false done undone n h = sym n ∙ h

no_path : (new v : Json) → (set_by_path [] new v).0 ≡ true → ⊥
unfolding set_by_path
no_path new v s = cc

-- Where `getByPath` finds a value and `setByPath` answers true, `getByPath` then finds the new value.
pub get_by_path-set_by_path :
    (path : List Part) (old new v : Json)
    → get_by_path path (some v) ≡ some old
    → (set_by_path path new v).0 ≡ true
    → get_by_path path (some (set_by_path path new v).1) ≡ some new
unfolding get_by_path
get_by_path-set_by_path [] old new v g s = absurd (no_path new v s)
get_by_path-set_by_path (p ∷ []) old new v g s =
    let was = found_part [] (part_of p v) old g in
    let o =
      set_fails (is_object v) (true, assign p new v) (false, v) refl
        (sym (ap (λ x. x.0) (set_by_path-last p new v)) ∙ s) in
    rw (set_by_path-last p new v, o) (ap (get_by_path []) (part_of-assign p new was.0 v was.1 o))
get_by_path-set_by_path (p ∷ q ∷ ps) old new v g s =
    let was = found_part (q ∷ ps) (part_of p v) old g in
    let w = was.0 in
    let inner = set_by_path (q ∷ ps) new w in
    let step = set_by_path-inner p q ps new v w was.1 in
    let o =
      set_fails (is_object w) (inner.0, assign p inner.1 v) (false, v) refl
        (sym (ap (λ x. x.0) step) ∙ s) in
    let taken : set_by_path (p ∷ q ∷ ps) new v ≡ (inner.0, assign p inner.1 v) =
      step ∙ (rw o refl) in
    rw taken (
      ap (get_by_path (q ∷ ps))
        (part_of-assign p inner.1 w v was.1 (part_of-is_object p v w was.1 o))
      ∙ get_by_path-set_by_path (q ∷ ps) old new w (sym (ap (get_by_path (q ∷ ps)) was.1) ∙ g)
          (sym (ap (λ x. x.0) taken) ∙ s))
