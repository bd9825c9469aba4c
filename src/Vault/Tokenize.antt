-- ===== src/Vault/Tokenize.antt =====
-- packages/token-vault/index.mjs: `tokenize`. It returns its result, or the error that it throws, and the
-- vault after it.
use haechi.Prelude.{
  ℕ, Bool, true, false, Option, none, some, [], ◌∷◌, ◌++◌, if◌then◌else◌, take, Text, Fields, find,
  put, Result, ok, err,
}
use haechi.Vault.Store.{TokenRecord, Aad, pruned, add_days}
use haechi.Vault.{
  Provider, VaultConfig, VaultError, encrypt_failed, is_deterministic_type, deterministic_domain,
  token_of, sanitize_metadata, Tokens, Vault,
}

module _ (provider : Provider) where
  open provider use {Envelope, encrypt, decrypt, hmac, random_hash}

  -- The token for a value: of the value and the key, or of fresh random bytes.
  abbrev pub mac_hash : Option (Text → Text → Text) → Text → Text
  mac_hash none s = []
  mac_hash (some mac) s = take 32 (mac s deterministic_domain)

  unfoldable pub new_token : VaultConfig → ℕ → Text → Text → Text
  unfolding is_deterministic_type
  new_token config seed plaintext type = token_of type (
      if is_deterministic_type config type
      then mac_hash hmac (type ++ (b':' ∷ plaintext))
      else random_hash seed plaintext)

  pub record Tokenized : Type 0 where
    pub token : Text
    pub type : Text
    pub reused : Bool

  abbrev pub answer :
      Text
      → Text
      → Bool
      → Tokens provider
      → Vault provider
      → Result VaultError Tokenized × Vault provider
  answer token type reused tokens v =
      (ok record { token = token; type = type; reused = reused }, record v { tokens = tokens })

  -- The new record; an encryption that fails leaves the file as it was.
  unfoldable pub store_new :
      VaultConfig
      → ℕ
      → Text
      → Aad
      → Fields
      → Option Envelope
      → Tokens provider
      → Vault provider
      → Result VaultError Tokenized × Vault provider
  unfolding put sanitize_metadata
  store_new config now token aad metadata none tokens v = (err encrypt_failed, v)
  store_new config now token aad metadata (some envelope) tokens v =
      answer token aad.type false
        (put token
          record {
            type = aad.type;
            created_at = now;
            expires_at = some (add_days now config.retention_days);
            metadata = sanitize_metadata metadata;
            envelope = envelope;
            aad = aad;
          }
          tokens)
        v

  unfoldable pub store_token :
      VaultConfig
      → ℕ
      → ℕ
      → Text
      → Text
      → Aad
      → Fields
      → Option (TokenRecord Envelope)
      → Tokens provider
      → Vault provider
      → Result VaultError Tokenized × Vault provider
  unfolding put store_new
  store_token config now seed token plaintext aad metadata (some existing) tokens v =
      answer token aad.type true
        (put token (record existing { expires_at = some (add_days now config.retention_days) })
          tokens)
        v
  store_token config now seed token plaintext aad metadata none tokens v =
      store_new config now token aad metadata
        (encrypt seed plaintext aad (add_days now config.retention_days)) tokens v

  unfoldable pub tokenize :
      VaultConfig
      → ℕ
      → ℕ
      → Text
      → Text
      → Fields
      → Fields
      → Vault provider
      → Result VaultError Tokenized × Vault provider
  unfolding new_token store_token find pruned
  tokenize config now seed plaintext type context metadata v =
      let token = new_token config seed plaintext type in
      let tokens = pruned now v.tokens in
      store_token config now seed token plaintext
        record { token = token; type = type; context = context } metadata (find token tokens) tokens
        v
