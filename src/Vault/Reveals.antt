-- ===== src/Vault/Reveals.antt =====
-- What `reveal` and `detokenize` give back of what was tokenized.
use haechi.Prelude.{
  ℕ, ◌≤◌, ◌<◌, ◌≡◌, refl, sym, ap, ◌∙◌, inl, inr, Bool, true, false, none, some, Option-cases, [],
  ◌∷◌, Text, text_eq, Fields, find, put, utf16, Result, ok, err,
}
use haechi.Vault.Store.{TokenRecord, Aad, pruned, add_days, is_expired}
use haechi.Vault.{Provider, VaultConfig, VaultError, decrypt_failed, encrypt_failed, Vault}
use haechi.Vault.Tokenize.{Tokenized, new_token, tokenize}
use haechi.Vault.Operations.{
  reveal, reveal_record, reveal_decrypted, restore_all, restore, detokenize,
}
use haechi.Vault.Effects.{fresh_record, tokenize-reused, tokenize-new, tokenize-error}

-- What the crypto provider promises: an envelope opens under its own data before its expiry, and not
-- from then on.
pub record IsSound (p : Provider) : Type 0 where
  pub opens :
      (seed until now : ℕ) (s : Text) (a : Aad) (e : p.Envelope)
      → p.encrypt seed s a until ≡ some e
      → now < until
      → p.decrypt now e a ≡ some s
  pub expires :
      (seed until now : ℕ) (s : Text) (a b : Aad) (e : p.Envelope)
      → p.encrypt seed s a until ≡ some e
      → until ≤ now
      → p.decrypt now e b ≡ none

module _ (provider : Provider) (config : VaultConfig) where
  open provider use {Envelope, encrypt, decrypt}

  pub reveal-plaintext :
      (now : ℕ) (token s : Text) (v : Vault provider) (r : TokenRecord Envelope)
      → text_eq config.reveal_policy (utf16 "disabled") ≡ false
      → find token v.tokens ≡ some r
      → is_expired now r ≡ false
      → decrypt now r.envelope r.aad ≡ some s
      → (reveal provider config now token none v).0
        ≡ ok record { token = token; type = r.type; plaintext = s }
  unfolding reveal reveal_record reveal_decrypted
  reveal-plaintext now token s v r p f x d = rw (p, f, x, d) refl

  pub reveal-decrypt_failed :
      (now : ℕ) (token : Text) (v : Vault provider) (r : TokenRecord Envelope)
      → text_eq config.reveal_policy (utf16 "disabled") ≡ false
      → find token v.tokens ≡ some r
      → is_expired now r ≡ false
      → decrypt now r.envelope r.aad ≡ none
      → (reveal provider config now token none v).0 ≡ err decrypt_failed
  unfolding reveal reveal_record reveal_decrypted
  reveal-decrypt_failed now token v r p f x d = rw (p, f, x, d) refl

  pub detokenize-plaintext :
      (now : ℕ) (token s : Text) (v : Vault provider) (r : TokenRecord Envelope)
      → find token v.tokens ≡ some r
      → is_expired now r ≡ false
      → decrypt now r.envelope r.aad ≡ some s
      → (detokenize provider config now (token ∷ []) v).0 ≡ (token, s) ∷ []
  unfolding detokenize restore_all restore put
  detokenize-plaintext now token s v r f x d = rw (f, x, d) refl

  -- A token that was not there before: what `tokenize` has stored for it.
  pub tokenized_new :
      (now seed : ℕ) (plaintext type : Text) (context metadata : Fields) (v : Vault provider)
      (t : Tokenized provider)
      → (tokenize provider config now seed plaintext type context metadata v).0 ≡ ok t
      → t.reused ≡ false
      → (e : Envelope) × (◌≡◌ {A = Tokenized provider}
          record {
            token = new_token provider config seed plaintext type;
            type = type;
            reused = false;
          }
          t)
        × (encrypt seed plaintext
              record {
                token = new_token provider config seed plaintext type;
                type = type;
                context = context;
              }
              (add_days now config.retention_days)
            ≡ some e)
        × ((tokenize provider config now seed plaintext type context metadata v).1.tokens
            ≡ put
                (new_token provider config seed plaintext type)
                (fresh_record provider config now
                  (new_token provider config seed plaintext type)
                  type
                  context
                  metadata
                  e)
                (pruned now v.tokens))
  tokenized_new now seed plaintext type context metadata v t h n =
      elim (Option-cases
        (find (new_token provider config seed plaintext type) (pruned now v.tokens))) [
          | inr s ↦
              let same =
                sym (
                  ap (λ x. x.0)
                    (tokenize-reused provider config now seed plaintext type context metadata v s.0
                      s.1))
                ∙ h in
              absurd (clash (sym n ∙ sym (ap (λ x. x.reused) (same_ok same))))
          | inl g ↦
              elim (Option-cases (
                encrypt seed plaintext
                  record {
                    token = new_token provider config seed plaintext type;
                    type = type;
                    context = context;
                  }
                  (add_days now config.retention_days))) [
                    | inr e ↦
                        let made =
                          tokenize-new provider config now seed plaintext type context metadata v
                            e.0 g e.1 in
                        (
                          e.0,
                          same_ok (sym (ap (λ x. x.0) made) ∙ h),
                          e.1,
                          ap (λ x. x.1.tokens) made,
                        )
                    | inl e ↦ absurd (
                        failed (
                          sym (
                            tokenize-error provider config now seed plaintext type context metadata
                              v g e)
                          ∙ h))
                  ]
        ]
    where
      clash : ◌≡◌ {A = Bool} false true → ⊥
      clash e = cc

      same_ok :
          {s t : Tokenized provider}
          → ◌≡◌ {A = Result VaultError (Tokenized provider)} (ok s) (ok t)
          → s ≡ t
      same_ok e = cc

      failed :
          {s : Tokenized provider}
          → ◌≡◌ {A = Result VaultError (Tokenized provider)} (err encrypt_failed) (ok s)
          → ⊥
      failed e = cc
