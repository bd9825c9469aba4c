-- ===== src/Crypto.antt =====
-- packages/crypto/index.mjs: the local key file, read and rotated. The file is `none` until it is written;
-- `decode` is Buffer.from of base64url.
use haechi.Prelude.{
  ℕ, ◌-◌, ◌^◌, Bool, true, false, Option, none, some, List, [], ◌∷◌, leb, ◌==◌, if◌then◌else◌,
  length, map, or_default, Text, text_eq, utf16, TextMap, find, put, Result, ok, err, or_throw,
  ◌>>=◌,
}
pub mod Budget
pub mod Rotation
pub mod Spent
pub mod Charges
pub mod Limit
pub mod Overlap
mod Tests

abbrev pub max_encryptions_per_key : ℕ
max_encryptions_per_key = 2 ^ 32

abbrev pub nonce_warn_threshold : ℕ
nonce_warn_threshold = 2 ^ 31

abbrev pub nonce_reserve_window : ℕ
nonce_reserve_window = 2 ^ 20

pub record KeyEntry : Type 0 where
  pub kid : Text
  pub material : Text
  pub status : Option Text
  pub usage : Option ℕ

pub record Key : Type 0 where
  pub kid : Text
  pub bytes : List ℕ

-- `active` is undefined only if the map lacks the active key.
pub record LoadedKeys : Type 0 where
  pub active : Option Key
  pub by_kid : TextMap Key

pub data CryptoError : Type 0 where
  no_keys bad_key_length no_active_key limit_reached : CryptoError
  missing_key : Text → CryptoError

pub record InitResult : Type 0 where
  pub created : Bool
  pub rotated : Bool

pub record NonceBudget : Type 0 where
  pub kid : Text
  pub used : ℕ
  pub remaining : ℕ
  pub exhausted : Bool

abbrev pub is_status : Text → Option Text → Bool
unfolding text_eq
is_status s none = false
is_status s (some t) = text_eq t s

-- `raw.keys.find((key) => key.status === "active")`
unfoldable pub find_active : List KeyEntry → Option KeyEntry
unfolding is_status
find_active [] = none
find_active (e ∷ es) =
    let rest = find_active es in if is_status (utf16 "active") e.status then some e else rest

unfoldable pub find_entry : Text → List KeyEntry → Option KeyEntry
unfolding text_eq
find_entry kid [] = none
find_entry kid (e ∷ es) = let rest = find_entry kid es in if text_eq e.kid kid then some e else rest

abbrev pub first_key : List KeyEntry → Option KeyEntry
first_key [] = none
first_key (e ∷ es) = some e

abbrev pub or_first : Option KeyEntry → Bool → List KeyEntry → Option KeyEntry
or_first (some e) require_active es = some e
or_first none require_active es = if require_active then none else first_key es

unfoldable pub active_entry : Bool → List KeyEntry → Option KeyEntry
unfolding find_active
active_entry require_active es = or_first (find_active es) require_active es

-- The new entry of a rotation is active, and the others are retired.
abbrev pub retired : Option Text → Option Text
unfolding is_status
retired status = if is_status (utf16 "active") status then some (utf16 "retired") else status

unfoldable pub retire : KeyEntry → KeyEntry
unfolding retired
retire e = record e { status = retired e.status }

unfoldable pub rotated_keys : KeyEntry → List KeyEntry → List KeyEntry
unfolding retire
rotated_keys new es = record new { status = some (utf16 "active"); usage = none } ∷ map retire es

abbrev pub existing_keys : Option (List KeyEntry) → List KeyEntry
existing_keys none = []
existing_keys (some es) = es

-- `readNonceBudget`
unfoldable pub read_nonce_budget : List KeyEntry → Result CryptoError NonceBudget
unfolding active_entry
read_nonce_budget es = do
  e ← or_throw (active_entry false es) no_active_key
  ok record {
    kid = e.kid;
    used = or_default e.usage 0;
    remaining = max_encryptions_per_key - or_default e.usage 0;
    exhausted = leb max_encryptions_per_key (or_default e.usage 0);
  }

module _ (decode : Text → List ℕ) where
  -- The loop over the keys.
  unfoldable pub read_keys : List KeyEntry → TextMap Key → Result CryptoError (TextMap Key)
  unfolding put
  read_keys [] by_kid = ok by_kid
  read_keys (e ∷ es) by_kid =
      let rest =
        read_keys es (put e.kid record { kid = e.kid; bytes = decode e.material } by_kid) in
      if length (decode e.material) == 32 then rest else err bad_key_length

  unfoldable pub loaded : Option KeyEntry → TextMap Key → Result CryptoError LoadedKeys
  unfolding find
  loaded none by_kid = err no_active_key
  loaded (some e) by_kid = ok record { active = find e.kid by_kid; by_kid = by_kid }

  unfoldable pub load_key_file : Bool → List KeyEntry → Result CryptoError LoadedKeys
  unfolding read_keys active_entry loaded
  load_key_file require_active [] = err no_keys
  load_key_file require_active (e ∷ es) = do
    by_kid ← read_keys (e ∷ es) []
    loaded (active_entry require_active (e ∷ es)) by_kid

  -- `initLocalKeyFile`: its answer and the file after it.
  unfoldable pub init_local_key_file :
      Bool
      → KeyEntry
      → Option (List KeyEntry)
      → Result CryptoError InitResult × Option (List KeyEntry)
  unfolding load_key_file rotated_keys
  init_local_key_file false new (some es) =
      (load_key_file true es >>= λ _. ok record { created = false; rotated = false }, some es)
  init_local_key_file force new file = (
    ok record { created = true; rotated = leb 1 (length (existing_keys file)) },
    some (rotated_keys new (existing_keys file)),
  )
