-- ===== src/Vault/Operations.antt =====
-- packages/token-vault/index.mjs: what the vault offers. An operation returns its result, or the error
-- that it throws, and the vault after it. Here the store can be read and the sink takes every event;
-- Vault.Failures has `reveal` where they throw.
use haechi.Prelude.{
  ℕ, zero, suc, ◌+◌, String, Bool, true, false, Option, none, some, List, [], ◌∷◌, ◌++◌,
  if◌then◌else◌, length, Text, text_eq, utf16, Fields, TextMap, find, put, erase, Result, ok, err,
  is_some,
}
use haechi.Audit.{decimal}
use haechi.Vault.Store.{TokenRecord, Aad, pruned, purged, is_expired}
use haechi.Vault.{
  Provider, VaultConfig, VaultError, reveal_disabled, unknown_token, token_expired, decrypt_failed,
  VaultEvent, sanitize_metadata, Tokens, Vault, record_vault_event,
}

-- The context that a caller of `reveal` adds.
abbrev pub with_context : Option Fields → Aad → Aad
with_context none aad = aad
with_context (some context) aad = record aad { context = context }

abbrev pub counted_event : String → String → Option Text → Option Text → Option ℕ → VaultEvent
counted_event operation decision reason token count = record {
  operation = utf16 operation;
  decision = utf16 decision;
  blocked = false;
  reason = reason;
  token = token;
  token_type = none;
  count = count;
}

abbrev pub skipped_reason : ℕ → Option Text
skipped_reason zero = none
skipped_reason (suc n) = some (decimal (suc n) ++ utf16 " tokens not restored")

abbrev pub reveal_event : Text → Text → Option Text → Option Text → VaultEvent
reveal_event decision token token_type reason = record {
  operation = utf16 "token-vault:reveal";
  decision = decision;
  blocked = false;
  reason = reason;
  token = some token;
  token_type = token_type;
  count = none;
}

module _ (provider : Provider) where
  open provider use {Envelope, encrypt, decrypt, hmac, random_hash}

  pub record Revealed : Type 0 where
    pub token : Text
    pub type : Text
    pub plaintext : Text

  unfoldable pub reveal_failure :
      VaultConfig
      → Text
      → String
      → VaultError
      → Vault provider
      → Result VaultError Revealed × Vault provider
  unfolding record_vault_event
  reveal_failure config token reason e v = (
    err e,
    record_vault_event provider config
        (reveal_event (utf16 "reveal_failed") token none (some (utf16 reason))) v,
  )

  unfoldable pub reveal_decrypted :
      VaultConfig
      → Text
      → Text
      → Option Text
      → Vault provider
      → Result VaultError Revealed × Vault provider
  unfolding record_vault_event reveal_failure
  reveal_decrypted config token type none v =
      reveal_failure config token "decrypt_failed" decrypt_failed v
  reveal_decrypted config token type (some plaintext) v = (
    ok record { token = token; type = type; plaintext = plaintext },
    record_vault_event provider config
        (reveal_event (utf16 "reveal_allowed") token (some type) none) v,
  )

  unfoldable pub reveal_record :
      VaultConfig
      → ℕ
      → Text
      → Option Fields
      → Option (TokenRecord Envelope)
      → Vault provider
      → Result VaultError Revealed × Vault provider
  unfolding reveal_decrypted reveal_failure
  reveal_record config now token context none v =
      reveal_failure config token "unknown_token" unknown_token v
  reveal_record config now token context (some r) v =
      if is_expired now r
      then reveal_failure config token "token_expired" token_expired v
      else reveal_decrypted config token r.type
          (decrypt now r.envelope (with_context context r.aad)) v

  unfoldable pub reveal :
      VaultConfig
      → ℕ
      → Text
      → Option Fields
      → Vault provider
      → Result VaultError Revealed × Vault provider
  unfolding reveal_record record_vault_event find text_eq
  reveal config now token context v =
      if text_eq config.reveal_policy (utf16 "disabled")
      then (
        err reveal_disabled,
        record_vault_event provider config
            (reveal_event (utf16 "reveal_denied") token none
              (some (utf16 "reveal_policy_disabled")))
            v,
      )
      else reveal_record config now token context (find token v.tokens) v

  -- The loop of `detokenize`: the values restored, and the number of tokens passed over.
  unfoldable pub restore :
      ℕ → Text → Option (TokenRecord Envelope) → TextMap Text × ℕ → TextMap Text × ℕ
  unfolding put
  restore now token none acc = (acc.0, acc.1 + 1)
  restore now token (some r) acc =
      if is_expired now r then (acc.0, acc.1 + 1) else elim (decrypt now r.envelope r.aad) [
        | none ↦ (acc.0, acc.1 + 1)
        | some plaintext ↦ (put token plaintext acc.0, acc.1)
      ]

  unfoldable pub restore_all : ℕ → Tokens provider → List Text → TextMap Text × ℕ → TextMap Text × ℕ
  unfolding restore find
  restore_all now tokens [] acc = acc
  restore_all now tokens (t ∷ ts) acc =
      restore_all now tokens ts (restore now t (find t tokens) acc)

  unfoldable pub detokenize :
      VaultConfig → ℕ → List Text → Vault provider → TextMap Text × Vault provider
  unfolding restore_all record_vault_event
  detokenize config now tokens v =
      let restored = restore_all now v.tokens tokens ([], 0) in
      (
        restored.0,
        record_vault_event provider config
            (counted_event "token-vault:detokenize" "detokenize" (skipped_reason restored.1) none
              (some (length restored.0)))
            v,
      )

  unfoldable pub purge : VaultConfig → ℕ → Text → Vault provider → Bool × Vault provider
  unfolding pruned erase find record_vault_event
  purge config now token v = (
    is_some (find token (pruned now v.tokens)),
    record_vault_event provider config
        (counted_event "token-vault:purge" "purge" none (some token) none)
        (record v { tokens = erase token (pruned now v.tokens) }),
  )

  unfoldable pub purge_expired : VaultConfig → ℕ → Vault provider → ℕ × Vault provider
  unfolding pruned purged record_vault_event
  purge_expired config now v = (
    purged now v.tokens,
    record_vault_event provider config
        (counted_event "token-vault:purge-expired" "purge_expired" none none
          (some (purged now v.tokens)))
        (record v { tokens = pruned now v.tokens }),
  )

  pub record Exported : Type 0 where
    pub token : Text
    pub type : Text
    pub created_at : ℕ
    pub expires_at : Option ℕ
    pub metadata : Fields

  -- `!type || record.type === type`
  abbrev pub is_wanted : Option Text → Text → Bool
  unfolding text_eq
  is_wanted none type = true
  is_wanted (some []) type = true
  is_wanted (some wanted) type = text_eq type wanted

  unfoldable pub exported : Option Text → Tokens provider → List Exported
  unfolding sanitize_metadata is_wanted
  exported type [] = []
  exported type ((k, r) ∷ m) =
      let rest = exported type m in
      if is_wanted type r.type
      then record {
        token = k;
        type = r.type;
        created_at = r.created_at;
        expires_at = r.expires_at;
        metadata = sanitize_metadata r.metadata;
      }
        ∷ rest
      else rest

  unfoldable pub export_metadata : Option Text → Vault provider → List Exported
  unfolding exported
  export_metadata type v = exported type v.tokens
