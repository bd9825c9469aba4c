-- ===== src/Vault/Forgets.antt =====
-- A purged token.
use haechi.Prelude.{
  ℕ, ◌≡◌, refl, inl, inr, false, Bool-cases, Option, none, List, [], ◌∷◌, All, Text, text_eq,
  text_eq_iff, Fields, find, put, erase, find-put, find-erase, utf16, Result, err,
}
use haechi.Vault.Store.{TokenRecord, pruned, find-pruned-none}
use haechi.Vault.{Provider, VaultConfig, VaultError, unknown_token, Tokens, Vault}
use haechi.Vault.Tokenize.{new_token}
use haechi.Vault.Operations.{
  Revealed, purge, reveal, reveal_record, reveal_failure, detokenize, restore_all, restore,
}
use haechi.Vault.Calls.{
  Call, tokenizing, revealing, detokenizing, purging, purging_expired, run_call, run_calls,
}
use haechi.Vault.Effects.{reveal-tokens, detokenize-tokens, purge-tokens, purge_expired-tokens}
use haechi.Vault.Distinct.{tokenize-keeps}

module _ (provider : Provider) (config : VaultConfig) (token : Text) where
  -- A call that does not make the token again.
  abbrev pub Leaves : ℕ × Call → Type 0
  Leaves (now, tokenizing seed plaintext type context metadata) =
      text_eq (new_token provider config seed plaintext type) token ≡ false
  Leaves (now, _) = Unit

  put_other :
      (other : Text) (r : TokenRecord provider.Envelope) (m : Tokens provider)
      → text_eq other token ≡ false
      → find token m ≡ none
      → find token (put other r m) ≡ none
  put_other other r m e n = rw (find-put other token r m, e) n

  erase_any :
      (other : Text) (m : Tokens provider) → find token m ≡ none → find token (erase other m) ≡ none
  erase_any other m n = elim (Bool-cases (text_eq other token)) [
    | inl e ↦ rw (find-erase other token m, e) refl
    | inr e ↦ rw (find-erase other token m, e) n
  ]

  run_call-unknown :
      (now : ℕ) (c : Call) (v : Vault provider)
      → Leaves (now, c)
      → find token v.tokens ≡ none
      → find token (run_call provider config now c v).tokens ≡ none
  unfolding run_call
  run_call-unknown now (tokenizing seed plaintext type context metadata) v l n =
      let gone = find-pruned-none now token v.tokens n in
      tokenize-keeps provider config (λ m. find token m ≡ none) now seed plaintext type context
        metadata v n (λ r _. put_other _ _ _ l gone) (λ e _. put_other _ _ _ l gone)
  run_call-unknown now (revealing t context) v l n =
      rw (reveal-tokens provider config now t context v) n
  run_call-unknown now (detokenizing ts) v l n = rw (detokenize-tokens provider config now ts v) n
  run_call-unknown now (purging t) v l n =
      rw (purge-tokens provider config now t v)
        (erase_any t _ (find-pruned-none now token v.tokens n))
  run_call-unknown now purging_expired v l n =
      rw (purge_expired-tokens provider config now v) (find-pruned-none now token v.tokens n)

  run_calls-unknown :
      (cs : List (ℕ × Call)) (v : Vault provider)
      → All Leaves cs
      → find token v.tokens ≡ none
      → find token (run_calls provider config cs v).tokens ≡ none
  unfolding run_calls
  run_calls-unknown [] v l n = n
  run_calls-unknown (c ∷ cs) v l n =
      run_calls-unknown cs (run_call provider config c.0 c.1 v) l.1
        (run_call-unknown c.0 c.1 v l.0 n)

  purged_none :
      (at : ℕ) (v : Vault provider) → find token (purge provider config at token v).1.tokens ≡ none
  purged_none at v =
      rw
        (
          purge-tokens provider config at token v,
          find-erase token token (pruned at v.tokens),
          (text_eq_iff token token).1 refl,
        )
        refl

  reveal_unknown :
      (now : ℕ) (context : Option Fields) (v : Vault provider)
      → text_eq config.reveal_policy (utf16 "disabled") ≡ false
      → find token v.tokens ≡ none
      → (reveal provider config now token context v).0 ≡ err unknown_token
  unfolding reveal reveal_record reveal_failure
  reveal_unknown now context v p n = rw (p, n) refl

  detokenize_unknown :
      (now : ℕ) (v : Vault provider)
      → find token v.tokens ≡ none
      → (detokenize provider config now (token ∷ []) v).0 ≡ []
  unfolding detokenize restore_all restore
  detokenize_unknown now v n = rw n refl

  -- A purge is final: after any calls that do not make the token again, `reveal` (under a policy other than
  -- "disabled") says that the token is unknown, in every context, and `detokenize` restores nothing for it.
  pub purge-reveal :
      (at now : ℕ) (context : Option Fields) (v : Vault provider) (calls : List (ℕ × Call))
      → text_eq config.reveal_policy (utf16 "disabled") ≡ false
      → All Leaves calls
      → (◌≡◌ {A = Result VaultError (Revealed provider)}
          (reveal provider config now token context
            (run_calls provider config calls (purge provider config at token v).1)).0
          (err unknown_token))
        × ((detokenize provider config now
              (token ∷ [])
              (run_calls provider config calls (purge provider config at token v).1)).0
            ≡ [])
  purge-reveal at now context v calls p l =
      let gone =
        run_calls-unknown calls (purge provider config at token v).1 l (purged_none at v) in
      (
        reveal_unknown now context
            (run_calls provider config calls (purge provider config at token v).1) p gone,
        detokenize_unknown now
            (run_calls provider config calls (purge provider config at token v).1) gone,
      )
