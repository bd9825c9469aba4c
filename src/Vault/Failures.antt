-- ===== src/Vault/Failures.antt =====
-- packages/token-vault/index.mjs: `reveal` where the store cannot be read, or the audit sink throws.
pub mod Tells
pub mod Agrees
use haechi.Prelude.{
  ℕ, String, ◌≡◌, ◌≢◌, ◌⊎◌, refl, sym, ap, ◌∙◌, inl, inr, Bool, true, false, Bool-cases, Option,
  none, some, List, [], ◌∷◌, ◌++◌, append-nil, append_assoc, if◌then◌else◌, Text, text_eq, Fields,
  find, utf16, Result, ok, err,
}
use haechi.Vault.Store.{TokenRecord, is_expired}
use haechi.Vault.{
  Provider, VaultConfig, VaultError, reveal_disabled, unknown_token, token_expired, decrypt_failed,
  VaultEvent, Vault, safe_audit_token, ends_with,
}
use haechi.Vault.Operations.{Revealed, reveal_event, with_context}

-- What the sink does with an event: it persists it, it throws and persists nothing, or it throws after the
-- event is in the log.
pub data SinkAnswer : Type 0 where
  taken refused broken : SinkAnswer

-- The error that `reveal` throws: its own, the store's, or the sink's.
pub data RevealError : Type 0 where
  thrown : VaultError → RevealError
  store_failed sink_failed : RevealError

module _ (provider : Provider) (config : VaultConfig) (sink : VaultEvent → SinkAnswer) where
  -- The event as `recordVaultEvent` completes it.
  unfoldable pub completed : VaultEvent → VaultEvent
  unfolding safe_audit_token ends_with
  completed e = record e {
    token = safe_audit_token provider e.token;
    blocked = ends_with (utf16 "_denied") e.decision;
  }

  abbrev pub answered : SinkAnswer → VaultEvent → Vault provider → Bool × Vault provider
  answered taken e v = (true, record v { events = v.events ++ e ∷ [] })
  answered refused e v = (false, v)
  answered broken e v = (false, record v { events = v.events ++ e ∷ [] })

  -- Whether the sink took the event, and the vault after it.
  unfoldable pub try_record : VaultEvent → Vault provider → Bool × Vault provider
  unfolding completed
  try_record e v =
      if config.has_audit then answered (sink (completed e)) (completed e) v else (true, v)

  -- An error is thrown if its event was taken, and the sink's otherwise.
  abbrev pub throw_after :
      RevealError → Bool × Vault provider → Result RevealError (Revealed provider) × Vault provider
  throw_after e (true, v) = (err e, v)
  throw_after e (false, v) = (err sink_failed, v)

  -- The catch clause.
  unfoldable pub fail_with :
      Text
      → String
      → RevealError
      → Vault provider
      → Result RevealError (Revealed provider) × Vault provider
  unfolding try_record
  fail_with token reason e v =
      throw_after e
        (try_record (reveal_event (utf16 "reveal_failed") token none (some (utf16 reason))) v)

  unfoldable pub allow_after :
      Revealed provider
      → Bool × Vault provider
      → Result RevealError (Revealed provider) × Vault provider
  unfolding fail_with
  allow_after r (true, v) = (ok r, v)
  allow_after r (false, v) = fail_with r.token "reveal_error" sink_failed v

  unfoldable pub try_decrypted :
      Text
      → Text
      → Option Text
      → Vault provider
      → Result RevealError (Revealed provider) × Vault provider
  unfolding fail_with allow_after try_record
  try_decrypted token type none v = fail_with token "decrypt_failed" (thrown decrypt_failed) v
  try_decrypted token type (some plaintext) v =
      allow_after record { token = token; type = type; plaintext = plaintext }
        (try_record (reveal_event (utf16 "reveal_allowed") token (some type) none) v)

  unfoldable pub try_reveal_record :
      ℕ
      → Text
      → Option Fields
      → Option (TokenRecord provider.Envelope)
      → Vault provider
      → Result RevealError (Revealed provider) × Vault provider
  unfolding fail_with try_decrypted
  try_reveal_record now token context none v =
      fail_with token "unknown_token" (thrown unknown_token) v
  try_reveal_record now token context (some r) v =
      if is_expired now r
      then fail_with token "token_expired" (thrown token_expired) v
      else try_decrypted token r.type (provider.decrypt now r.envelope (with_context context r.aad))
          v

  -- `reveal` over a store that can be read or not.
  unfoldable pub try_reveal :
      Bool
      → ℕ
      → Text
      → Option Fields
      → Vault provider
      → Result RevealError (Revealed provider) × Vault provider
  unfolding try_record fail_with try_reveal_record
  try_reveal readable now token context v =
      if text_eq config.reveal_policy (utf16 "disabled")
      then throw_after (thrown reveal_disabled) (
          try_record
            (reveal_event (utf16 "reveal_denied") token none
              (some (utf16 "reveal_policy_disabled")))
            v)
      else if readable
      then try_reveal_record now token context (find token v.tokens) v
      else fail_with token "reveal_error" store_failed v
