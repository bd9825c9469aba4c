-- ===== src/Audit.antt =====
-- packages/audit/index.mjs: the JSON text that is hashed (`canonicalize`, over `JSON.stringify` of the
-- language), and the record's sanitizing.
use haechi.Prelude.{
  ℕ, zero, suc, ◌+◌, ◌-◌, ◌/◌, ◌%◌, String, Bool, true, false, not, ◌&&◌, ◌||◌, [], ◌∷◌, List, ◌++◌,
  map, leb, ltb, ◌==◌, if◌then◌else◌, any, Text, text_eq, utf16, Json, null, boolean, number,
  string, array, object, Items, end, item, Fields, stop, field,
}
use haechi.Prelude.Sort.{sort}
pub mod Canonical
pub mod Sanitize
pub mod Chain
mod Tests

-- A number in decimal digits; `fuel` bounds the digits.
unfoldable pub digits : ℕ → ℕ → Text
digits zero n = (b'0' + n % 10) ∷ []
digits (suc fuel) n =
    let higher = digits fuel (n / 10) in
    if ltb n 10 then (b'0' + n) ∷ [] else higher ++ (b'0' + n % 10) ∷ []

unfoldable pub decimal : ℕ → Text
unfolding digits
decimal n = digits n n

abbrev pub hex_digit : ℕ → ℕ
hex_digit d = if ltb d 10 then b'0' + d else b'a' + (d - 10)

abbrev pub unicode_escape : ℕ → Text
unicode_escape c =
    b'\\'
    ∷ b'u'
    ∷ hex_digit (c / 4096)
    ∷ hex_digit (c / 256 % 16)
    ∷ hex_digit (c / 16 % 16)
    ∷ hex_digit (c % 16)
    ∷ []

abbrev pub is_lead : ℕ → Bool
is_lead c = leb 0xD800 c && ltb c 0xDC00

abbrev pub is_trail : ℕ → Bool
is_trail c = leb 0xDC00 c && ltb c 0xE000

abbrev pub starts_with_trail : Text → Bool
starts_with_trail [] = false
starts_with_trail (c ∷ _) = is_trail c

abbrev pub escaped : ℕ → Text
escaped c = b'\\' ∷ c ∷ []

-- One code unit of a quoted text; a surrogate without its partner is written as an escape.
unfoldable pub quote_unit : Bool → Bool → ℕ → Text
quote_unit after_lead before_trail c =
    if c == b'"' || c == b'\\'
    then escaped c
    else if c == 8
    then escaped b'b'
    else if c == 9
    then escaped b't'
    else if c == 10
    then escaped b'n'
    else if c == 12
    then escaped b'f'
    else if c == 13
    then escaped b'r'
    else if ltb c 32 || is_lead c && not before_trail || is_trail c && not after_lead
    then unicode_escape c
    else c ∷ []

unfoldable pub quote_units : Bool → Text → Text
unfolding quote_unit
quote_units after_lead [] = []
quote_units after_lead (c ∷ s) =
    quote_unit after_lead (starts_with_trail s) c ++ quote_units (is_lead c) s

-- `JSON.stringify` of a text.
unfoldable pub quote : Text → Text
unfolding quote_units
quote s = b'"' ∷ (quote_units false s ++ b'"' ∷ [])

-- The order of `Array.prototype.sort` on texts.
unfoldable pub text_le : Text → Text → Bool
text_le [] t = true
text_le (x ∷ s) [] = false
text_le (x ∷ s) (y ∷ t) = if x == y then text_le s t else ltb x y

abbrev pub key_le : Text × Text → Text × Text → Bool
unfolding text_le
key_le p q = text_le p.0 q.0

abbrev pub join : List Text → Text
join [] = []
join (s ∷ []) = s
join (s ∷ t ∷ ts) = s ++ (b',' ∷ join (t ∷ ts))

abbrev pub entry_text : Text × Text → Text
entry_text p = quote p.0 ++ (b':' ∷ p.1)

unfoldable mutual
  unfolding sort

  pub canonicalize : Json → Text
  canonicalize null = utf16 "null"
  canonicalize (boolean true) = utf16 "true"
  canonicalize (boolean false) = utf16 "false"
  canonicalize (number n) = decimal n
  canonicalize (string s) = quote s
  canonicalize (array xs) = b'[' ∷ (join (canonical_items xs) ++ b']' ∷ [])
  canonicalize (object fs) =
      b'{' ∷ (join (map entry_text (sort key_le (canonical_fields fs))) ++ b'}' ∷ [])

  pub canonical_items : Items → List Text
  canonical_items end = []
  canonical_items (item x xs) = canonicalize x ∷ canonical_items xs

  pub canonical_fields : Fields → List (Text × Text)
  canonical_fields stop = []
  canonical_fields (field k v fs) = (k, canonicalize v) ∷ canonical_fields fs

abbrev pub forbidden_keys : List Text
forbidden_keys = map utf16 (
    "value" ∷ "plaintext" ∷ "payload" ∷ "content" ∷ "message" ∷ "prompt" ∷ "secret" ∷ "access_token"
    ∷ "id_token" ∷ "refresh_token" ∷ "code" ∷ "code_verifier" ∷ "client_secret" ∷ "state" ∷ "nonce"
    ∷ "claims" ∷ "subject" ∷ "issuer" ∷ "credential" ∷ "authorization" ∷ "signature" ∷ "entry"
    ∷ "scopes" ∷ "labels" ∷ [])

unfoldable pub is_forbidden : Text → Bool
unfolding text_eq
is_forbidden key = any (text_eq key) forbidden_keys

unfoldable mutual
  unfolding is_forbidden

  pub sanitize_audit : Json → Json
  sanitize_audit (array xs) = array (sanitize_items xs)
  sanitize_audit (object fs) = object (sanitize_fields fs)
  sanitize_audit v = v

  pub sanitize_items : Items → Items
  sanitize_items end = end
  sanitize_items (item x xs) = item (sanitize_audit x) (sanitize_items xs)

  pub sanitize_fields : Fields → Fields
  sanitize_fields stop = stop
  sanitize_fields (field k v fs) =
      let rest = sanitize_fields fs in
      if is_forbidden k then rest else field k (sanitize_audit v) rest
