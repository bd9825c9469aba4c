-- ===== src/Stream.antt =====
-- packages/stream-filter/index.mjs: a streamed response cut into frames, and the shapes that its
-- modules share. `JSON.parse` is a parameter of the modules that read frames.
use haechi.Prelude.{
  ℕ, zero, suc, ◌+◌, Bool, true, false, not, ◌&&◌, ◌||◌, Option, none, some, List, [], ◌∷◌, ◌++◌,
  leb, ◌==◌, if◌then◌else◌, length, drop, filter, Text, utf16, map, Json, null, boolean, number,
  string, array, object, Items, end, item, Fields, stop, field,
}
use haechi.Audit.{decimal, quote, join, entry_text}
pub mod Splitter
pub mod Lines
pub mod Stringify
pub mod Frames
pub mod Paths
pub mod Inspect
mod Tests

pub data Format : Type 0 where
  sse ndjson : Format

-- What `trim` takes away: white space and line terminators.
unfoldable pub is_space : ℕ → Bool
is_space c =
    leb 9 c && leb c 13
    || c == 32
    || c == 0xA0
    || c == 0x1680
    || leb 0x2000 c && leb c 0x200A
    || c == 0x2028
    || c == 0x2029
    || c == 0x202F
    || c == 0x205F
    || c == 0x3000
    || c == 0xFEFF

unfoldable pub trim_start : Text → Text
unfolding is_space
trim_start [] = []
trim_start (c ∷ s) = if is_space c then trim_start s else c ∷ s

abbrev pub keep_unit : ℕ → Text → Text
keep_unit c [] = if is_space c then [] else c ∷ []
keep_unit c (d ∷ s) = c ∷ d ∷ s

unfoldable pub trim_end : Text → Text
unfolding is_space
trim_end [] = []
trim_end (c ∷ s) = keep_unit c (trim_end s)

unfoldable pub trim : Text → Text
unfolding trim_start trim_end
trim s = trim_start (trim_end s)

-- The truth of a text.
abbrev pub is_filled : Text → Bool
is_filled [] = false
is_filled (_ ∷ _) = true

abbrev pub grow : ℕ → List Text → List Text
grow c [] = (c ∷ []) ∷ []
grow c (l ∷ ls) = (c ∷ l) ∷ ls

-- `split("\n")` and `join("\n")`.
unfoldable pub lines : Text → List Text
lines [] = [] ∷ []
lines (c ∷ s) = let rest = lines s in if c == b'\n' then [] ∷ rest else grow c rest

abbrev pub concat : List Text → Text
concat [] = []
concat (s ∷ ss) = s ++ concat ss

unfoldable pub unlines : List Text → Text
unlines [] = []
unlines (l ∷ []) = l
unlines (l ∷ m ∷ ls) = l ++ (b'\n' ∷ unlines (m ∷ ls))

unfoldable mutual
  -- `JSON.stringify`
  pub stringify : Json → Text
  stringify null = utf16 "null"
  stringify (boolean true) = utf16 "true"
  stringify (boolean false) = utf16 "false"
  stringify (number n) = decimal n
  stringify (string s) = quote s
  stringify (array xs) = b'[' ∷ (join (item_texts xs) ++ b']' ∷ [])
  stringify (object fs) = b'{' ∷ (join (map entry_text (field_texts fs)) ++ b'}' ∷ [])

  pub item_texts : Items → List Text
  item_texts end = []
  item_texts (item x xs) = stringify x ∷ item_texts xs

  pub field_texts : Fields → List (Text × Text)
  field_texts stop = []
  field_texts (field k v fs) = (k, stringify v) ∷ field_texts fs
