-- ===== src/Vault.antt =====
-- packages/token-vault/index.mjs: `createTokenVault` over a store that keeps its map in a file. A call is
-- a function of the vault, the clock's value and, where it draws random bytes, a seed; it is one step,
-- since the queue and the store's lock put the calls in an order. An audit sink that is there accepts
-- every event, and a token or type that is passed is a text.
use haechi.Prelude.{
  ℕ, ◌-◌, String, Bool, true, false, not, ◌&&◌, ◌||◌, Option, none, some, List, [], ◌∷◌, ◌++◌, leb,
  ◌==◌, if◌then◌else◌, any, all, length, take, drop, Text, text_eq, utf16, Fields, stop, field,
  TextMap, find, put, erase, Result, ok, err, is_some,
}
use haechi.Vault.Store.{TokenRecord, Aad}
pub mod Store
pub mod Tokenize
pub mod Operations
pub mod Calls
pub mod Effects
pub mod Reveals
pub mod Distinct
pub mod Keeps
pub mod AuditTokens
pub mod Forgets
pub mod Governance
pub mod Failures
pub mod RoundTrip
pub mod Refines
pub mod Lock
mod Tests

-- The crypto provider, and the hash of a value with fresh random bytes.
pub record Provider : Type 1 where
  pub Envelope : Type 0
  pub encrypt : ℕ → Text → Aad → ℕ → Option Envelope
  pub decrypt : ℕ → Envelope → Aad → Option Text
  pub hmac : Option (Text → Text → Text)
  pub random_hash : ℕ → Text → Text

pub record VaultConfig : Type 0 where
  pub reveal_policy : Text
  pub retention_days : ℕ
  pub has_audit : Bool
  pub deterministic : Bool
  pub deterministic_types : Option (List Text)

abbrev pub deterministic_domain : Text
deterministic_domain = utf16 "haechi:token-vault:deterministic:v1"

abbrev pub audit_id_domain : Text
audit_id_domain = utf16 "haechi:token-vault:audit-id:v1"

pub data VaultError : Type 0 where
  reveal_disabled unknown_token token_expired decrypt_failed encrypt_failed no_hmac : VaultError

-- What an operation writes to the audit log; the other fields are fixed, or the clock's and random.
pub record VaultEvent : Type 0 where
  pub operation : Text
  pub decision : Text
  pub blocked : Bool
  pub reason : Option Text
  pub token : Option Text
  pub token_type : Option Text
  pub count : Option ℕ

abbrev pub is_hex : ℕ → Bool
is_hex c = leb b'a' c && leb c b'f' || leb b'0' c && leb c b'9'

abbrev pub is_type_unit : ℕ → Bool
is_type_unit c = leb b'a' c && leb c b'z' || leb b'0' c && leb c b'9' || c == b'_'

abbrev pub is_hash : Text → Bool
is_hash s = leb 16 (length s) && all is_hex s

-- `[a-z0-9_]+_[a-f0-9]{16,}$`, with what the first part has already.
unfoldable pub is_type_and_hash : Bool → Text → Bool
is_type_and_hash begun [] = false
is_type_and_hash begun (c ∷ s) =
    let further = is_type_and_hash true s in
    begun && (c == b'_') && is_hash s || is_type_unit c && further

-- `VAULT_TOKEN_SHAPE`
unfoldable pub is_token_shape : Text → Bool
unfolding text_eq is_type_and_hash
is_token_shape s = text_eq (take 4 s) (utf16 "tok_") && is_type_and_hash false (drop 4 s)

-- `["value", "plaintext", "payload"].includes(key)`
unfoldable pub is_withheld : Text → Bool
unfolding text_eq
is_withheld key =
    text_eq key (utf16 "value") || text_eq key (utf16 "plaintext") || text_eq key (utf16 "payload")

unfoldable pub sanitize_metadata : Fields → Fields
unfolding is_withheld
sanitize_metadata stop = stop
sanitize_metadata (field k v fs) =
    let rest = sanitize_metadata fs in if is_withheld k then rest else field k v rest

-- `decision.endsWith("_denied")`
abbrev pub ends_with : Text → Text → Bool
unfolding text_eq
ends_with end s = leb (length end) (length s) && text_eq (drop (length s - length end) s) end

abbrev pub includes_type : Option (List Text) → Text → Bool
unfolding text_eq
includes_type none type = true
includes_type (some types) type = any (text_eq type) types

-- `isDeterministicType`
abbrev pub is_deterministic_type : VaultConfig → Text → Bool
unfolding includes_type
is_deterministic_type config type =
    if config.deterministic then includes_type config.deterministic_types type else false

abbrev pub token_of : Text → Text → Text
token_of type hash = utf16 "tok_" ++ (type ++ (b'_' ∷ hash))

module _ (provider : Provider) where
  open provider use {Envelope, encrypt, decrypt, hmac, random_hash}

  abbrev pub Tokens : Type 0
  Tokens = TextMap (TokenRecord Envelope)

  pub record Vault : Type 0 where
    pub tokens : Tokens
    pub events : List VaultEvent

  -- `createTokenVault` on a store that holds tokens.
  unfoldable pub create_token_vault : VaultConfig → Tokens → Result VaultError Vault
  create_token_vault config tokens =
      if config.deterministic && not (is_some hmac)
      then err no_hmac
      else ok record { tokens = tokens; events = [] }

  abbrev pub nontoken : Option (Text → Text → Text) → Text → Text
  nontoken none token = utf16 "[REDACTED:non-token]"
  nontoken (some mac) token = utf16 "nontoken_" ++ take 32 (mac token audit_id_domain)

  unfoldable pub safe_audit_token : Option Text → Option Text
  unfolding is_token_shape
  safe_audit_token none = none
  safe_audit_token (some token) = some (if is_token_shape token then token else nontoken hmac token)

  unfoldable pub record_vault_event : VaultConfig → VaultEvent → Vault → Vault
  unfolding safe_audit_token ends_with
  record_vault_event config e v =
      if config.has_audit
      then record v {
        events =
            v.events
            ++ record e {
              token = safe_audit_token e.token;
              blocked = ends_with (utf16 "_denied") e.decision;
            }
              ∷ [];
      }
      else v
