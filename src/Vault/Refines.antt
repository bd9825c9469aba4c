-- ===== src/Vault/Refines.antt =====
-- The vault as its users may think of it: a function from texts to records, without an order, on which a call
-- is an update. The map of `Vault.tokens` implements it.
use std.Path.{fun_ext}
use haechi.Prelude.{
  ℕ, ◌≡◌, refl, sym, ap, ◌∙◌, inl, inr, Option, none, some, Option-cases, List, [], ◌∷◌,
  if◌then◌else◌, Text, text_eq, Fields, find, find-put, find-erase,
}
use haechi.Vault.Store.{TokenRecord, Aad, pruned, add_days, HasKeys, unexpired, find-pruned}
use haechi.Vault.{Provider, VaultConfig, Tokens, Vault}
use haechi.Vault.Tokenize.{new_token, tokenize}
use haechi.Vault.Calls.{
  Call, tokenizing, revealing, detokenizing, purging, purging_expired, run_call, run_calls,
}
use haechi.Vault.Effects.{
  reveal-tokens, detokenize-tokens, purge-tokens, purge_expired-tokens, expiry, fresh_record,
  tokenize-reused, tokenize-new, tokenize-failed,
}
use haechi.Vault.Distinct.{run_call-HasKeys}

module _ (provider : Provider) (config : VaultConfig) where
  open provider use {Envelope, encrypt}

  abbrev pub Records : Type 0
  Records = Text → Option (TokenRecord Envelope)

  abbrev pub swept : ℕ → Records → Records
  swept now records k = unexpired now (records k)

  abbrev pub updated : Text → Option (TokenRecord Envelope) → Records → Records
  updated token r records k = if text_eq token k then r else records k

  -- A token is stored for a value: renewed if it is there, else made of a new envelope; if the encryption
  -- fails, nothing has changed.
  abbrev pub stored :
      ℕ
      → Text
      → Text
      → Fields
      → Fields
      → Option (TokenRecord Envelope)
      → Option Envelope
      → Records
      → Records
  stored now token type context metadata (some r) e records =
      updated token (some (record r { expires_at = expiry provider config now }))
        (swept now records)
  stored now token type context metadata none (some e) records =
      updated token (some (fresh_record provider config now token type context metadata e))
        (swept now records)
  stored now token type context metadata none none records = records

  -- What a call does to the records.
  unfoldable pub update : ℕ → Call → Records → Records
  update now (tokenizing seed plaintext type context metadata) records =
      let token = new_token provider config seed plaintext type in
      stored now token type context metadata (swept now records token)
        (encrypt seed plaintext record { token = token; type = type; context = context }
          (add_days now config.retention_days))
        records
  update now (revealing token context) records = records
  update now (detokenizing tokens) records = records
  update now (purging token) records = updated token none (swept now records)
  update now purging_expired records = swept now records

  unfoldable pub update_all : List (ℕ × Call) → Records → Records
  unfolding update
  update_all [] records = records
  update_all (c ∷ cs) records = update_all cs (update c.0 c.1 records)

  -- The records that a map holds.
  abbrev pub records_of : Tokens provider → Records
  records_of m k = find k m

  find-tokenize :
      (now seed : ℕ) (plaintext type : Text) (context metadata : Fields) (v : Vault provider)
      (k : Text)
      → HasKeys v.tokens
      → find k (tokenize provider config now seed plaintext type context metadata v).1.tokens
        ≡ update now (tokenizing seed plaintext type context metadata) (records_of v.tokens) k
  unfolding update
  find-tokenize now seed plaintext type context metadata v k d =
      let token = new_token provider config seed plaintext type in
      let aad : Aad = record { token = token; type = type; context = context } in
      let view = find-pruned now token v.tokens d in
      let left = find-pruned now k v.tokens d in
      let at : Option (TokenRecord Envelope) → Option Envelope → Option (TokenRecord Envelope) =
        λ o e. stored now token type context metadata o e (records_of v.tokens) k in
      elim (Option-cases (find token (pruned now v.tokens))) [
        | inr s ↦
            ap (λ x. find k x.1.tokens)
              (tokenize-reused provider config now seed plaintext type context metadata v s.0 s.1)
            ∙ find-put token k (record s.0 { expires_at = expiry provider config now })
                (pruned now v.tokens)
            ∙ ap
                (λ o.
                  if text_eq token k
                  then some (record s.0 { expires_at = expiry provider config now })
                  else o)
                left
            ∙ ap (λ o. at o (encrypt seed plaintext aad (add_days now config.retention_days)))
                (sym (sym view ∙ s.1))
        | inl n ↦
            elim (Option-cases (encrypt seed plaintext aad (add_days now config.retention_days))) [
              | inr e ↦
                  ap (λ x. find k x.1.tokens)
                    (tokenize-new provider config now seed plaintext type context metadata v e.0 n
                      e.1)
                  ∙ find-put token k
                      (fresh_record provider config now token type context metadata e.0)
                      (pruned now v.tokens)
                  ∙ ap
                      (λ o.
                        if text_eq token k
                        then some (fresh_record provider config now token type context metadata e.0)
                        else o)
                      left
                  ∙ ap (λ x. at none x) (sym e.1)
                  ∙ ap (λ o. at o (encrypt seed plaintext aad (add_days now config.retention_days)))
                      (sym (sym view ∙ n))
              | inl e ↦
                  ap (λ x. find k x.tokens)
                    (tokenize-failed provider config now seed plaintext type context metadata v n e)
                  ∙ ap (λ x. at none x) (sym e)
                  ∙ ap (λ o. at o (encrypt seed plaintext aad (add_days now config.retention_days)))
                      (sym (sym view ∙ n))
            ]
      ]

  run_call-update :
      (now : ℕ) (c : Call) (v : Vault provider) (k : Text)
      → HasKeys v.tokens
      → find k (run_call provider config now c v).tokens ≡ update now c (records_of v.tokens) k
  unfolding run_call update
  run_call-update now (tokenizing seed plaintext type context metadata) v k d =
      find-tokenize now seed plaintext type context metadata v k d
  run_call-update now (revealing token context) v k d =
      ap (find k) (reveal-tokens provider config now token context v)
  run_call-update now (detokenizing tokens) v k d =
      ap (find k) (detokenize-tokens provider config now tokens v)
  run_call-update now (purging token) v k d =
      ap (find k) (purge-tokens provider config now token v)
      ∙ find-erase token k (pruned now v.tokens)
      ∙ ap (λ o. if text_eq token k then none else o) (find-pruned now k v.tokens d)
  run_call-update now purging_expired v k d =
      ap (find k) (purge_expired-tokens provider config now v) ∙ find-pruned now k v.tokens d

  -- A vault whose tokens are distinct behaves as a function from texts to records does. After any calls, at any
  -- times, the records that its map holds are the ones that the calls' updates give, one after the other: a
  -- tokenization drops the records whose expiry has passed and then renews the record of its token, if there
  -- is one left, or makes one of a new envelope, and changes nothing if the encryption fails; a purge drops
  -- them and the token's record; a purge of the expired drops them; a reveal and a detokenization change
  -- nothing.
  pub run_calls-update :
      (calls : List (ℕ × Call)) (v : Vault provider)
      → HasKeys v.tokens
      → records_of (run_calls provider config calls v).tokens
        ≡ update_all calls (records_of v.tokens)
  unfolding run_calls update_all
  run_calls-update [] v d = refl
  run_calls-update (c ∷ cs) v d =
      run_calls-update cs (run_call provider config c.0 c.1 v)
        (run_call-HasKeys provider config c.0 c.1 v d)
      ∙ ap (update_all cs) (fun_ext (λ k. run_call-update c.0 c.1 v k d))
