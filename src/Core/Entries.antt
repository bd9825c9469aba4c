-- ===== src/Core/Entries.antt =====
-- `collectStringEntries` and `safePathToString`: the texts of a payload. An error for the nesting is `none`;
-- `short_hash` stands for the first twelve digits of SHA-256.
pub mod Depth
pub mod Paths
use haechi.Prelude.{
  ℕ, zero, suc, ◌+◌, Bool, true, false, Option, none, some, List, [], ◌∷◌, ◌++◌, leb, if◌then◌else◌,
  length, Text, utf16, Json, null, boolean, number, string, array, object, Items, end, item, Fields,
  stop, field,
}
use haechi.Audit.{decimal}
use haechi.Stream.Paths.{Part, key, index}
use haechi.Core.{Kind, in_value, in_key, in_number}

pub record Entry : Type 0 where
  pub path : List Part
  pub path_text : Text
  pub value : Text
  pub kind : Kind

abbrev pub append_all : {A : Type 0} → Option (List A) → Option (List A) → Option (List A)
append_all none ys = none
append_all (some xs) none = none
append_all (some xs) (some ys) = some (xs ++ ys)

module _ (short_hash : Text → Text) where
  abbrev pub safe_part : Text → Text
  safe_part k = utf16 "key_" ++ short_hash k

  unfoldable pub path_text_from : Bool → Text → List Part → Text
  unfolding decimal
  path_text_from first text [] = text
  path_text_from first text (index n ∷ path) =
      path_text_from false (text ++ (b'[' ∷ (decimal n ++ b']' ∷ []))) path
  path_text_from true text (key k ∷ path) = path_text_from false (safe_part k) path
  path_text_from false text (key k ∷ path) =
      path_text_from false (text ++ (b'.' ∷ safe_part k)) path

  unfoldable pub safe_path_to_string : List Part → Text
  unfolding path_text_from
  safe_path_to_string path = path_text_from true [] path

  unfoldable pub entry : List Part → Text → Kind → Entry
  unfolding safe_path_to_string
  entry path value kind = record {
    path = path;
    path_text = safe_path_to_string path;
    value = value;
    kind = kind;
  }

  unfoldable mutual
    unfolding entry decimal

    pub collect_string_entries : ℕ → Json → List Part → Option (List Entry)
    collect_string_entries max_depth (string s) path = some (entry path s in_value ∷ [])
    collect_string_entries max_depth (number n) path = some (entry path (decimal n) in_number ∷ [])
    collect_string_entries max_depth (array xs) path =
        let inner = collect_items max_depth xs path 0 in
        if leb max_depth (length path) then none else inner
    collect_string_entries max_depth (object fs) path =
        let inner = collect_fields max_depth fs path in
        if leb max_depth (length path) then none else inner
    collect_string_entries max_depth _ path = some []

    pub collect_items : ℕ → Items → List Part → ℕ → Option (List Entry)
    collect_items max_depth end path n = some []
    collect_items max_depth (item v xs) path n =
        append_all (collect_string_entries max_depth v (path ++ index n ∷ []))
          (collect_items max_depth xs path (suc n))

    -- A key is an entry too.
    pub collect_fields : ℕ → Fields → List Part → Option (List Entry)
    collect_fields max_depth stop path = some []
    collect_fields max_depth (field k v fs) path =
        append_all (some (entry (path ++ key k ∷ []) k in_key ∷ [])) (
          append_all (collect_string_entries max_depth v (path ++ key k ∷ []))
            (collect_fields max_depth fs path))
