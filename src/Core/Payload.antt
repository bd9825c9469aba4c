-- ===== src/Core/Payload.antt =====
-- `transformPayload`: the texts and the keys of a payload rewritten, by the place where they stand. The
-- paths are those of the payload's entries; where the code would throw for another path, the value is left.
pub mod FreshKey
use haechi.Prelude.{
  ℕ, zero, suc, ◌+◌, String, Bool, true, false, not, ◌&&◌, Option, none, some, List, [], ◌∷◌, ◌++◌,
  leb, ◌==◌, if◌then◌else◌, filter, length, is_some, Text, text_eq, utf16, Json, number, string,
  array, object, Fields, stop, field, get, set, without,
}
use haechi.Prelude.Sort.{sort}
use haechi.Audit.{decimal}
use haechi.Stream.Paths.{Part, key, index, part_of, assign, get_by_path}
use haechi.Core.{Kind, in_value, in_key, in_number, Detection}
use haechi.Core.Transform.{Item, Provider, World, transform_string, ◌>>=◌}

-- `setByPath`
unfoldable pub set_at : List Part → Json → Json → Json
unfolding assign part_of
set_at [] next v = v
set_at (p ∷ []) next v = assign p next v
set_at (p ∷ q ∷ ps) next v = elim (part_of p v) [
  | none ↦ v
  | some w ↦ assign p (set_at (q ∷ ps) next w) v
]

abbrev pub part_eq : Part → Part → Bool
unfolding text_eq
part_eq (key j) (key k) = text_eq j k
part_eq (index m) (index n) = m == n
part_eq _ _ = false

abbrev pub path_eq : List Part → List Part → Bool
unfolding part_eq
path_eq [] [] = true
path_eq (p ∷ ps) (q ∷ qs) = part_eq p q && path_eq ps qs
path_eq _ _ = false

abbrev pub kind_eq : Kind → Kind → Bool
kind_eq in_value in_value = true
kind_eq in_key in_key = true
kind_eq in_number in_number = true
kind_eq _ _ = false

pub record Group : Type 0 where
  pub kind : Kind
  pub path : List Part
  pub items : List Item

-- The map by kind and path, in insertion order.
unfoldable pub add_item : Item → List Group → List Group
unfolding path_eq
add_item i [] = record { kind = i.detection.kind; path = i.detection.path; items = i ∷ [] } ∷ []
add_item i (g ∷ gs) =
    let rest = add_item i gs in
    if kind_eq g.kind i.detection.kind && path_eq g.path i.detection.path
    then record g { items = g.items ++ i ∷ [] } ∷ gs
    else g ∷ rest

unfoldable pub group_items : List Item → List Group → List Group
unfolding add_item
group_items [] groups = groups
group_items (i ∷ is) groups = group_items is (add_item i groups)

abbrev pub is_key_group : Group → Bool
is_key_group g = kind_eq g.kind in_key

abbrev pub is_deeper : Group → Group → Bool
is_deeper l r = leb (length r.path) (length l.path)

abbrev pub parent_of : List Part → List Part
parent_of [] = []
parent_of (p ∷ []) = []
parent_of (p ∷ q ∷ ps) = p ∷ parent_of (q ∷ ps)

abbrev pub last_key : List Part → Option Text
last_key [] = none
last_key (key k ∷ []) = some k
last_key (index n ∷ []) = none
last_key (p ∷ q ∷ ps) = last_key (q ∷ ps)

abbrev pub has_own : Text → Fields → Bool
unfolding get
has_own k fs = is_some (get k fs)

abbrev pub numbered : Text → ℕ → Text
unfolding decimal
numbered k suffix = k ++ (b'#' ∷ decimal suffix)

-- The loop that looks for a key that is free. Each turn finds another key of the object, so the number of its
-- fields is enough fuel.
unfoldable pub numbered_key : ℕ → ℕ → Text → Fields → Text
unfolding has_own numbered
numbered_key zero suffix k fs = numbered k suffix
numbered_key (suc fuel) suffix k fs =
    let later = numbered_key fuel (suc suffix) k fs in
    if has_own (numbered k suffix) fs then later else numbered k suffix

abbrev pub field_count : Fields → ℕ
field_count stop = 0
field_count (field k v fs) = suc (field_count fs)

unfoldable pub free_key : Text → Fields → Text
unfolding has_own numbered_key
free_key k fs = if has_own k fs then numbered_key (field_count fs) 2 k fs else k

-- The key taken out, and its value put under the new key at the end.
abbrev pub renamed : Text → Text → Json → Fields → Fields
unfolding free_key set without
renamed old new child fs = set (free_key new (without old fs)) child (without old fs)

module _ (provider : Provider) where
  unfoldable pub transform_leaf :
      Group → Option Json → Json → World provider → Option (Json × World provider)
  unfolding transform_string set_at decimal
  transform_leaf g (some (string s)) output w = elim g.kind [
    | in_number ↦ some (output, w)
    | _ ↦ do
      r ← transform_string provider s g.items w
      some (set_at g.path (string r.0) output, r.1)
  ]
  transform_leaf g (some (number n)) output w = elim g.kind [
    | in_number ↦ do
      r ← transform_string provider (decimal n) g.items w
      some ((if text_eq r.0 (decimal n) then output else set_at g.path (string r.0) output), r.1)
    | _ ↦ some (output, w)
  ]
  transform_leaf g _ output w = some (output, w)

  unfoldable pub transform_values :
      List Group → Json → World provider → Option (Json × World provider)
  unfolding transform_leaf
  transform_values [] output w = some (output, w)
  transform_values (g ∷ gs) output w = do
    r ← transform_leaf g (get_by_path g.path (some output)) output w
    transform_values gs r.0 r.1

  -- The object after a renaming: itself, or put back in its place.
  abbrev pub set_parent : List Part → Json → Json → Json
  unfolding set_at
  set_parent [] next output = next
  set_parent (p ∷ ps) next output = set_at (p ∷ ps) next output

  unfoldable pub rename_key :
      Group → Option Text → Option Json → Json → World provider → Option (Json × World provider)
  unfolding transform_string set_parent renamed get
  rename_key g (some k) (some (object fs)) output w = elim (get k fs) [
    | none ↦ some (output, w)
    | some child ↦ do
      r ← transform_string provider k g.items w
      some (
        (if text_eq r.0 k
            then output
            else set_parent (parent_of g.path) (object (renamed k r.0 child fs)) output),
        r.1,
      )
  ]
  rename_key g _ _ output w = some (output, w)

  unfoldable pub rename_keys : List Group → Json → World provider → Option (Json × World provider)
  unfolding rename_key
  rename_keys [] output w = some (output, w)
  rename_keys (g ∷ gs) output w = do
    r ← rename_key g (last_key g.path) (get_by_path (parent_of g.path) (some output)) output w
    rename_keys gs r.0 r.1

  -- With enforcement; the items are the detections with their actions.
  unfoldable pub transform_groups :
      List Group → Json → World provider → Option (Json × World provider)
  unfolding transform_values rename_keys
  transform_groups groups payload w = do
    r ← transform_values (filter (λ g. not (is_key_group g)) groups) payload w
    rename_keys (sort is_deeper (filter is_key_group groups)) r.0 r.1

  unfoldable pub transform_payload :
      Bool → Json → List Item → World provider → Option (Json × World provider)
  unfolding transform_groups group_items
  transform_payload enforced payload [] w = some (payload, w)
  transform_payload false payload (i ∷ is) w = some (payload, w)
  transform_payload true payload (i ∷ is) w = transform_groups (group_items (i ∷ is) []) payload w
