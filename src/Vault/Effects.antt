-- ===== src/Vault/Effects.antt =====
-- What an operation does to the map of tokens, its audit events left aside.
use haechi.Prelude.{
  ℕ, ◌≡◌, refl, inl, inr, true, false, Bool-cases, Option, none, some, List, [], arith, Text,
  text_eq, length, utf16, Fields, find, put, erase, err, ok,
}
use haechi.Vault.Store.{TokenRecord, pruned, purged, add_days, is_expired}
use haechi.Vault.{
  Provider, VaultConfig, VaultEvent, encrypt_failed, Vault, record_vault_event, sanitize_metadata,
}
use haechi.Vault.Tokenize.{new_token, store_token, store_new, tokenize}
use haechi.Vault.Operations.{
  counted_event, reveal_event, skipped_reason, restore_all, reveal, reveal_record, reveal_decrypted,
  detokenize, purge, purge_expired,
}

module _ (provider : Provider) (config : VaultConfig) where
  open provider use {Envelope, encrypt, decrypt, hmac, random_hash}

  pub record_vault_event-tokens :
      (e : VaultEvent) (v : Vault provider)
      → (record_vault_event provider config e v).tokens ≡ v.tokens
  unfolding record_vault_event
  record_vault_event-tokens e v = ground arith

  pub reveal-tokens :
      (now : ℕ) (token : Text) (context : Option Fields) (v : Vault provider)
      → (reveal provider config now token context v).1.tokens ≡ v.tokens
  unfolding reveal
  reveal-tokens now token context v =
      elim (Bool-cases (text_eq config.reveal_policy (utf16 "disabled"))) [
        | inl x ↦ rw x (
            record_vault_event-tokens
              (reveal_event (utf16 "reveal_denied") token none
                (some (utf16 "reveal_policy_disabled")))
              v)
        | inr x ↦ rw x (on_record (find token v.tokens))
      ]
    where
      on_plaintext :
          (type : Text) (o : Option Text)
          → (reveal_decrypted provider config token type o v).1.tokens ≡ v.tokens
      on_plaintext type none =
          record_vault_event-tokens
            (reveal_event (utf16 "reveal_failed") token none (some (utf16 "decrypt_failed"))) v
      on_plaintext type (some s) =
          record_vault_event-tokens (reveal_event (utf16 "reveal_allowed") token (some type) none) v

      on_record :
          (o : Option (TokenRecord Envelope))
          → (reveal_record provider config now token context o v).1.tokens ≡ v.tokens
      on_record none =
          record_vault_event-tokens
            (reveal_event (utf16 "reveal_failed") token none (some (utf16 "unknown_token"))) v
      on_record (some r) = elim (Bool-cases (is_expired now r)) [
        | inl y ↦ rw y (
            record_vault_event-tokens
              (reveal_event (utf16 "reveal_failed") token none (some (utf16 "token_expired"))) v)
        | inr y ↦ rw y (on_plaintext r.type _)
      ]

  pub detokenize-tokens :
      (now : ℕ) (tokens : List Text) (v : Vault provider)
      → (detokenize provider config now tokens v).1.tokens ≡ v.tokens
  unfolding detokenize
  detokenize-tokens now tokens v =
      record_vault_event-tokens
        (counted_event "token-vault:detokenize" "detokenize"
          (skipped_reason (restore_all provider now v.tokens tokens ([], 0)).1) none
          (some (length (restore_all provider now v.tokens tokens ([], 0)).0)))
        v

  pub purge-tokens :
      (now : ℕ) (token : Text) (v : Vault provider)
      → (purge provider config now token v).1.tokens ≡ erase token (pruned now v.tokens)
  unfolding purge
  purge-tokens now token v =
      record_vault_event-tokens (counted_event "token-vault:purge" "purge" none (some token) none)
        (record v { tokens = erase token (pruned now v.tokens) })

  pub purge_expired-tokens :
      (now : ℕ) (v : Vault provider)
      → (purge_expired provider config now v).1.tokens ≡ pruned now v.tokens
  unfolding purge_expired
  purge_expired-tokens now v =
      record_vault_event-tokens
        (counted_event "token-vault:purge-expired" "purge_expired" none none
          (some (purged now v.tokens)))
        (record v { tokens = pruned now v.tokens })

  abbrev pub expiry : ℕ → Option ℕ
  expiry now = some (add_days now config.retention_days)

  abbrev pub fresh_record : ℕ → Text → Text → Fields → Fields → Envelope → TokenRecord Envelope
  fresh_record now token type context metadata envelope = record {
    type = type;
    created_at = now;
    expires_at = expiry now;
    metadata = sanitize_metadata metadata;
    envelope = envelope;
    aad = record { token = token; type = type; context = context };
  }

  -- The three ways that `tokenize` goes, by what is stored for the token once expired records are gone.
  pub tokenize-reused :
      (now seed : ℕ) (plaintext type : Text) (context metadata : Fields) (v : Vault provider)
      (r : TokenRecord Envelope)
      → find (new_token provider config seed plaintext type) (pruned now v.tokens) ≡ some r
      → tokenize provider config now seed plaintext type context metadata v ≡ (
        ok record {
          token = new_token provider config seed plaintext type;
          type = type;
          reused = true;
        },
        record v {
          tokens =
              put
                (new_token provider config seed plaintext type)
                (record r { expires_at = expiry now })
                (pruned now v.tokens);
        },
      )
  unfolding tokenize store_token
  tokenize-reused now seed plaintext type context metadata v r h = rw h refl

  pub tokenize-new :
      (now seed : ℕ) (plaintext type : Text) (context metadata : Fields) (v : Vault provider)
      (envelope : Envelope)
      → find (new_token provider config seed plaintext type) (pruned now v.tokens) ≡ none
      → encrypt seed plaintext
          record {
            token = new_token provider config seed plaintext type;
            type = type;
            context = context;
          }
          (add_days now config.retention_days)
        ≡ some envelope
      → tokenize provider config now seed plaintext type context metadata v ≡ (
        ok record {
          token = new_token provider config seed plaintext type;
          type = type;
          reused = false;
        },
        record v {
          tokens =
              put
                (new_token provider config seed plaintext type)
                (fresh_record now
                  (new_token provider config seed plaintext type)
                  type
                  context
                  metadata
                  envelope)
                (pruned now v.tokens);
        },
      )
  unfolding tokenize store_token store_new
  tokenize-new now seed plaintext type context metadata v envelope h e = rw (h, e) refl

  pub tokenize-failed :
      (now seed : ℕ) (plaintext type : Text) (context metadata : Fields) (v : Vault provider)
      → find (new_token provider config seed plaintext type) (pruned now v.tokens) ≡ none
      → encrypt seed plaintext
          record {
            token = new_token provider config seed plaintext type;
            type = type;
            context = context;
          }
          (add_days now config.retention_days)
        ≡ none
      → (tokenize provider config now seed plaintext type context metadata v).1 ≡ v
  unfolding tokenize store_token store_new
  tokenize-failed now seed plaintext type context metadata v h e = rw (h, e) refl

  pub tokenize-error :
      (now seed : ℕ) (plaintext type : Text) (context metadata : Fields) (v : Vault provider)
      → find (new_token provider config seed plaintext type) (pruned now v.tokens) ≡ none
      → encrypt seed plaintext
          record {
            token = new_token provider config seed plaintext type;
            type = type;
            context = context;
          }
          (add_days now config.retention_days)
        ≡ none
      → (tokenize provider config now seed plaintext type context metadata v).0 ≡ err encrypt_failed
  unfolding tokenize store_token store_new
  tokenize-error now seed plaintext type context metadata v h e = rw (h, e) refl
