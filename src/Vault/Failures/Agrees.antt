-- ===== src/Vault/Failures/Agrees.antt =====
-- Where the store can be read and the sink takes every event, `try_reveal` is `reveal`.
use haechi.Prelude.{
  ℕ, ◌≡◌, refl, inl, inr, true, Bool-cases, Option, none, some, String, Text, text_eq, Fields, find,
  utf16, Result, ok, err,
}
use haechi.Vault.Store.{TokenRecord, is_expired}
use haechi.Vault.{
  Provider, VaultConfig, VaultError, unknown_token, token_expired, decrypt_failed, VaultEvent,
  Vault, record_vault_event,
}
use haechi.Vault.Operations.{
  Revealed, reveal, reveal_event, reveal_failure, reveal_record, reveal_decrypted,
}
use haechi.Vault.Failures.{
  SinkAnswer, taken, RevealError, thrown, completed, try_record, fail_with, allow_after,
  try_decrypted, try_reveal_record, try_reveal,
}

module _ (provider : Provider) (config : VaultConfig) (sink : VaultEvent → SinkAnswer)
    (takes : (e : VaultEvent) → sink e ≡ taken) where
  abbrev pub as_thrown :
      Result VaultError (Revealed provider) × Vault provider
      → Result RevealError (Revealed provider) × Vault provider
  as_thrown (ok r, v) = (ok r, v)
  as_thrown (err e, v) = (err (thrown e), v)

  try_record-record_vault_event :
      (e : VaultEvent) (v : Vault provider)
      → try_record provider config sink e v ≡ (true, record_vault_event provider config e v)
  unfolding try_record record_vault_event completed
  try_record-record_vault_event e v = elim (Bool-cases config.has_audit) [
    | inl a ↦ rw a (rw (takes (completed provider config sink e)) refl)
    | inr a ↦ rw a refl
  ]

  fail_with-reveal_failure :
      (token : Text) (reason : String) (e : VaultError) (v : Vault provider)
      → fail_with provider config sink token reason (thrown e) v
        ≡ as_thrown (reveal_failure provider config token reason e v)
  unfolding fail_with reveal_failure
  fail_with-reveal_failure token reason e v =
      rw
        (try_record-record_vault_event
          (reveal_event (utf16 "reveal_failed") token none (some (utf16 reason))) v)
        refl

  try_decrypted-reveal_decrypted :
      (token type : Text) (o : Option Text) (v : Vault provider)
      → try_decrypted provider config sink token type o v
        ≡ as_thrown (reveal_decrypted provider config token type o v)
  unfolding try_decrypted reveal_decrypted allow_after
  try_decrypted-reveal_decrypted token type none v =
      fail_with-reveal_failure token "decrypt_failed" decrypt_failed v
  try_decrypted-reveal_decrypted token type (some s) v =
      rw
        (try_record-record_vault_event
          (reveal_event (utf16 "reveal_allowed") token (some type) none) v)
        refl

  try_reveal_record-reveal_record :
      (now : ℕ) (token : Text) (context : Option Fields)
      (o : Option (TokenRecord provider.Envelope)) (v : Vault provider)
      → try_reveal_record provider config sink now token context o v
        ≡ as_thrown (reveal_record provider config now token context o v)
  unfolding try_reveal_record reveal_record
  try_reveal_record-reveal_record now token context none v =
      fail_with-reveal_failure token "unknown_token" unknown_token v
  try_reveal_record-reveal_record now token context (some r) v =
      elim (Bool-cases (is_expired now r)) [
        | inl y ↦ rw y (fail_with-reveal_failure token "token_expired" token_expired v)
        | inr y ↦ rw y (try_decrypted-reveal_decrypted token r.type _ v)
      ]

  -- Where the store can be read and the sink takes every event, both give the same result and the same vault.
  pub try_reveal-reveal :
      (now : ℕ) (token : Text) (context : Option Fields) (v : Vault provider)
      → try_reveal provider config sink true now token context v
        ≡ as_thrown (reveal provider config now token context v)
  unfolding try_reveal reveal
  try_reveal-reveal now token context v =
      elim (Bool-cases (text_eq config.reveal_policy (utf16 "disabled"))) [
        | inl x ↦ rw x (
            rw
              (try_record-record_vault_event
                (reveal_event (utf16 "reveal_denied") token none
                  (some (utf16 "reveal_policy_disabled")))
                v)
              refl)
        | inr x ↦ rw x (try_reveal_record-reveal_record now token context (find token v.tokens) v)
      ]
