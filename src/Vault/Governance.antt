-- ===== src/Vault/Governance.antt =====
-- The audit events of a vault's operations, and who may read a value.
use haechi.Prelude.{
  ℕ, ◌≡◌, refl, inl, inr, Bool, true, false, Bool-cases, Option, none, some, [], ◌∷◌, ◌++◌, Text,
  text_eq, Fields, find, utf16, Result, ok, err,
}
use haechi.Vault.Store.{TokenRecord, is_expired}
use haechi.Vault.{
  Provider, VaultConfig, VaultError, reveal_disabled, unknown_token, token_expired, decrypt_failed,
  VaultEvent, Vault, record_vault_event, safe_audit_token,
}
use haechi.Vault.Operations.{Revealed, reveal, reveal_failure, reveal_record, reveal_decrypted}

-- The decision and the reason that the event of a `reveal` names, by its result.
abbrev pub decision_of {ℓ} : {R : Type ℓ} → Result VaultError R → Text
decision_of (ok r) = utf16 "reveal_allowed"
decision_of (err reveal_disabled) = utf16 "reveal_denied"
decision_of (err _) = utf16 "reveal_failed"

abbrev pub reason_of {ℓ} : {R : Type ℓ} → Result VaultError R → Option Text
reason_of (ok r) = none
reason_of (err reveal_disabled) = some (utf16 "reveal_policy_disabled")
reason_of (err unknown_token) = some (utf16 "unknown_token")
reason_of (err token_expired) = some (utf16 "token_expired")
reason_of (err decrypt_failed) = some (utf16 "decrypt_failed")
reason_of (err _) = none

abbrev pub is_denial {ℓ} : {R : Type ℓ} → Result VaultError R → Bool
is_denial (err reveal_disabled) = true
is_denial _ = false

module _ (provider : Provider) (config : VaultConfig) where
  abbrev pub type_of : Result VaultError (Revealed provider) → Option Text
  type_of (ok r) = some r.type
  type_of (err e) = none

  -- The event that tells of a result.
  abbrev pub event_of : Text → Result VaultError (Revealed provider) → VaultEvent
  event_of token result = record {
    operation = utf16 "token-vault:reveal";
    decision = decision_of result;
    blocked = is_denial result;
    reason = reason_of result;
    token = safe_audit_token provider (some token);
    token_type = type_of result;
    count = none;
  }

  abbrev pub Tells :
      Text → Vault provider → Result VaultError (Revealed provider) × Vault provider → Type 0
  Tells token v out = out.1 ≡ record v { events = v.events ++ event_of token out.0 ∷ [] }

  -- With an audit sink that takes every event and a store that can be read: a `reveal` that the policy
  -- refuses, one of a token that is unknown or expired, one whose envelope does not open, and one that gives
  -- the plaintext each change no token and append exactly one event, which holds the decision, the reason and
  -- the type that belong to the result, is marked as blocked only for the refusal, and names the token as the
  -- audit may see it.
  pub reveal-Tells :
      (now : ℕ) (token : Text) (context : Option Fields) (v : Vault provider)
      → config.has_audit ≡ true
      → Tells token v (reveal provider config now token context v)
  unfolding reveal reveal_record reveal_decrypted reveal_failure record_vault_event
  reveal-Tells now token context v a =
      elim (Bool-cases (text_eq config.reveal_policy (utf16 "disabled"))) [
        | inl x ↦ rw (x, a) refl
        | inr x ↦ rw x (on_record (find token v.tokens))
      ]
    where
      on_plaintext :
          (type : Text) (o : Option Text)
          → Tells token v (reveal_decrypted provider config token type o v)
      on_plaintext type none = rw a refl
      on_plaintext type (some s) = rw a refl

      on_record :
          (o : Option (TokenRecord provider.Envelope))
          → Tells token v (reveal_record provider config now token context o v)
      on_record none = rw a refl
      on_record (some r) = elim (Bool-cases (is_expired now r)) [
        | inl y ↦ rw (y, a) refl
        | inr y ↦ rw y (on_plaintext r.type _)
      ]
