-- ===== src/Vault/Distinct.antt =====
-- What every call keeps of the map: its tokens stay distinct.
use haechi.Prelude.{
  ℕ, ◌≡◌, inl, inr, none, some, Option-cases, List, [], ◌∷◌, Text, Fields, find, put,
}
use haechi.Vault.Store.{
  TokenRecord, pruned, add_days, HasKeys, pruned-HasKeys, put-HasKeys, erase-HasKeys,
}
use haechi.Vault.{Provider, VaultConfig, Tokens, Vault}
use haechi.Vault.Tokenize.{new_token, tokenize}
use haechi.Vault.Calls.{
  Call, tokenizing, revealing, detokenizing, purging, purging_expired, run_call, run_calls,
}
use haechi.Vault.Effects.{
  reveal-tokens, detokenize-tokens, purge-tokens, purge_expired-tokens, expiry, fresh_record,
  tokenize-reused, tokenize-new, tokenize-failed,
}

module _ (provider : Provider) (config : VaultConfig) where
  open provider use {Envelope, encrypt}

  -- A property of the map that every change by `tokenize` keeps, it keeps.
  pub tokenize-keeps {ℓ} :
      (P : Tokens provider → Type ℓ) (now seed : ℕ) (plaintext type : Text)
      (context metadata : Fields) (v : Vault provider)
      → P v.tokens
      → ((r : TokenRecord Envelope)
          → find (new_token provider config seed plaintext type) (pruned now v.tokens) ≡ some r
          → P (
              put
                (new_token provider config seed plaintext type)
                (record r { expires_at = expiry provider config now })
                (pruned now v.tokens)))
      → ((e : Envelope)
          → find (new_token provider config seed plaintext type) (pruned now v.tokens) ≡ none
          → P (
              put
                (new_token provider config seed plaintext type)
                (fresh_record provider config now
                  (new_token provider config seed plaintext type)
                  type
                  context
                  metadata
                  e)
                (pruned now v.tokens)))
      → P (tokenize provider config now seed plaintext type context metadata v).1.tokens
  tokenize-keeps P now seed plaintext type context metadata v start reused new =
      elim (Option-cases
        (find (new_token provider config seed plaintext type) (pruned now v.tokens))) [
          | inr s ↦
              rw
                (tokenize-reused provider config now seed plaintext type context metadata v s.0 s.1)
                (reused s.0 s.1)
          | inl n ↦
              elim (Option-cases (
                encrypt seed plaintext
                  record {
                    token = new_token provider config seed plaintext type;
                    type = type;
                    context = context;
                  }
                  (add_days now config.retention_days))) [
                    | inr e ↦
                        rw
                          (tokenize-new provider config now seed plaintext type context metadata v
                            e.0 n e.1)
                          (new e.0 n)
                    | inl e ↦
                        rw
                          (tokenize-failed provider config now seed plaintext type context metadata
                            v n e)
                          start
                  ]
        ]

  pub run_call-HasKeys :
      (now : ℕ) (c : Call) (v : Vault provider)
      → HasKeys v.tokens
      → HasKeys (run_call provider config now c v).tokens
  unfolding run_call
  run_call-HasKeys now (tokenizing seed plaintext type context metadata) v d =
      let left = pruned-HasKeys now v.tokens d in
      tokenize-keeps (λ m. HasKeys m) now seed plaintext type context metadata v d
        (λ r _. put-HasKeys _ _ _ left) (λ e _. put-HasKeys _ _ _ left)
  run_call-HasKeys now (revealing token context) v d =
      rw (reveal-tokens provider config now token context v) d
  run_call-HasKeys now (detokenizing tokens) v d =
      rw (detokenize-tokens provider config now tokens v) d
  run_call-HasKeys now (purging token) v d =
      rw (purge-tokens provider config now token v)
        (erase-HasKeys token _ (pruned-HasKeys now v.tokens d))
  run_call-HasKeys now purging_expired v d =
      rw (purge_expired-tokens provider config now v) (pruned-HasKeys now v.tokens d)

  pub run_calls-HasKeys :
      (cs : List (ℕ × Call)) (v : Vault provider)
      → HasKeys v.tokens
      → HasKeys (run_calls provider config cs v).tokens
  unfolding run_calls
  run_calls-HasKeys [] v d = d
  run_calls-HasKeys (c ∷ cs) v d =
      run_calls-HasKeys cs (run_call provider config c.0 c.1 v) (run_call-HasKeys c.0 c.1 v d)
