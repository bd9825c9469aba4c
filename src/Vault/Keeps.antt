-- ===== src/Vault/Keeps.antt =====
-- How long a stored token stays: through every call up to its expiry, unless it is purged.
use haechi.Prelude.{
  ℕ, ◌≤◌, ◌≡◌, refl, sym, ap, ◌∙◌, subst, inl, inr, false, Bool-cases, Option, none, some, List, [],
  ◌∷◌, arith, All, Text, text_eq, text_eq_iff, Fields, find, put, erase, find-put, find-erase,
}
use haechi.Vault.Store.{
  TokenRecord, pruned, add_days, is_expired, is_past, HasKeys, unexpired, find-pruned,
}
use haechi.Vault.{Provider, VaultConfig, Tokens, Vault}
use haechi.Vault.Tokenize.{new_token, tokenize}
use haechi.Vault.Calls.{
  Call, tokenizing, revealing, detokenizing, purging, purging_expired, run_call, run_calls,
}
use haechi.Vault.Effects.{
  reveal-tokens, detokenize-tokens, purge-tokens, purge_expired-tokens, expiry,
}
use haechi.Vault.Distinct.{tokenize-keeps, run_call-HasKeys}

abbrev pub until : VaultConfig → ℕ → ℕ
until config start = add_days start config.retention_days

-- A call at a time of the token's life that does not purge it.
abbrev pub Spares : VaultConfig → Text → ℕ → ℕ × Call → Type 0
Spares config token start (now, purging other) =
    (start ≤ now) × (now ≤ until config start) × (text_eq other token ≡ false)
Spares config token start (now, c) = (start ≤ now) × (now ≤ until config start)

module _ (provider : Provider) (config : VaultConfig) where
  open provider use {Envelope}

  module _ (token : Text) (stored : TokenRecord Envelope) (start : ℕ) where
    -- The token's record, up to the fields that a reuse changes.
    pub record Kept (m : Tokens provider) : Type 0 where
      pub current : TokenRecord Envelope
      pub found : find token m ≡ some current
      pub same_type : current.type ≡ stored.type
      pub same_envelope : current.envelope ≡ stored.envelope
      pub same_aad : current.aad ≡ stored.aad
      pub date : ℕ
      pub expires : current.expires_at ≡ some date
      pub late : until config start ≤ date

    alive : (now date : ℕ) (o : Option ℕ) → o ≡ some date → now ≤ date → is_past now o ≡ false
    alive now date o e l = rw e (ground arith)

    pub Kept-pruned :
        (now : ℕ) (m : Tokens provider)
        → HasKeys m
        → now ≤ until config start
        → Kept m
        → Kept (pruned now m)
    Kept-pruned now m d l k =
        let lives : is_expired now k.current ≡ false =
          alive now k.date k.current.expires_at k.expires (omega (arith, k.late)) in
        record {
          current = k.current;
          found = find-pruned now token m d ∙ ap (unexpired now) k.found ∙ (rw lives);
          same_type = k.same_type;
          same_envelope = k.same_envelope;
          same_aad = k.same_aad;
          date = k.date;
          expires = k.expires;
          late = k.late;
        }

    Kept-put_other :
        (other : Text) (r : TokenRecord Envelope) (m : Tokens provider)
        → text_eq other token ≡ false
        → Kept m
        → Kept (put other r m)
    Kept-put_other other r m e k = record {
      current = k.current;
      found = rw (find-put other token r m, e) k.found;
      same_type = k.same_type;
      same_envelope = k.same_envelope;
      same_aad = k.same_aad;
      date = k.date;
      expires = k.expires;
      late = k.late;
    }

    -- A reuse of the token renews its date.
    Kept-reused :
        (now : ℕ) (r : TokenRecord Envelope) (m : Tokens provider)
        → start ≤ now
        → find token m ≡ some r
        → Kept m
        → Kept (put token (record r { expires_at = expiry provider config now }) m)
    Kept-reused now r m l f k =
        let same : k.current ≡ r = same_some (sym k.found ∙ f) in
        record {
          current = record r { expires_at = expiry provider config now };
          found = rw (
            find-put token token (record r { expires_at = expiry provider config now }) m,
            (text_eq_iff token token).1 refl,
          );
          same_type = ap (λ x. x.type) (sym same) ∙ k.same_type;
          same_envelope = ap (λ x. x.envelope) (sym same) ∙ k.same_envelope;
          same_aad = ap (λ x. x.aad) (sym same) ∙ k.same_aad;
          date = add_days now config.retention_days;
          expires = refl;
          late = omega arith;
        }
      where
        same_some :
            {s t : TokenRecord Envelope}
            → ◌≡◌ {A = Option (TokenRecord Envelope)} (some s) (some t)
            → s ≡ t
        same_some e = cc

    Kept-tokenize :
        (now seed : ℕ) (plaintext type : Text) (context metadata : Fields) (v : Vault provider)
        → HasKeys v.tokens
        → start ≤ now
        → now ≤ until config start
        → Kept v.tokens
        → Kept (tokenize provider config now seed plaintext type context metadata v).1.tokens
    Kept-tokenize now seed plaintext type context metadata v d l u k =
        let left = Kept-pruned now v.tokens d u k in
        let made = new_token provider config seed plaintext type in
        elim (Bool-cases (text_eq made token)) [
          | inr other ↦
              tokenize-keeps provider config Kept now seed plaintext type context metadata v k
                (λ r _. Kept-put_other made _ _ other left)
                (λ e _. Kept-put_other made _ _ other left)
          | inl mine ↦
              let e : made ≡ token = (text_eq_iff made token).0 mine in
              tokenize-keeps provider config Kept now seed plaintext type context metadata v k
                (λ r f.
                  subst
                    (λ t. Kept (
                      put t (record r { expires_at = expiry provider config now })
                        (pruned now v.tokens)))
                    (sym e)
                    (Kept-reused now r (pruned now v.tokens) l
                      (subst (λ t. find t (pruned now v.tokens) ≡ some r) e f) left))
                (λ x n. absurd (
                  none_kept (pruned now v.tokens) left
                    (subst (λ t. find t (pruned now v.tokens) ≡ none) e n)))
        ]
      where
        none_kept : (m : Tokens provider) → Kept m → find token m ≡ none → ⊥
        none_kept m k n =
            let h : ◌≡◌ {A = Option (TokenRecord Envelope)} none (some k.current) =
              sym n ∙ k.found in
            cc h

    Kept-erase :
        (other : Text) (m : Tokens provider)
        → text_eq other token ≡ false
        → Kept m
        → Kept (erase other m)
    Kept-erase other m e k = record {
      current = k.current;
      found = rw (find-erase other token m, e) k.found;
      same_type = k.same_type;
      same_envelope = k.same_envelope;
      same_aad = k.same_aad;
      date = k.date;
      expires = k.expires;
      late = k.late;
    }

    pub run_call-Kept :
        (now : ℕ) (c : Call) (v : Vault provider)
        → HasKeys v.tokens
        → Spares config token start (now, c)
        → Kept v.tokens
        → Kept (run_call provider config now c v).tokens
    unfolding run_call
    run_call-Kept now (tokenizing seed plaintext type context metadata) v d s k =
        Kept-tokenize now seed plaintext type context metadata v d s.0 s.1 k
    run_call-Kept now (revealing t context) v d s k =
        rw (reveal-tokens provider config now t context v) k
    run_call-Kept now (detokenizing ts) v d s k = rw (detokenize-tokens provider config now ts v) k
    run_call-Kept now (purging t) v d s k =
        rw (purge-tokens provider config now t v)
          (Kept-erase t _ s.2 (Kept-pruned now v.tokens d s.1 k))
    run_call-Kept now purging_expired v d s k =
        rw (purge_expired-tokens provider config now v) (Kept-pruned now v.tokens d s.1 k)

    pub run_calls-Kept :
        (cs : List (ℕ × Call)) (v : Vault provider)
        → HasKeys v.tokens
        → All (Spares config token start) cs
        → Kept v.tokens
        → Kept (run_calls provider config cs v).tokens
    unfolding run_calls
    run_calls-Kept [] v d s k = k
    run_calls-Kept (c ∷ cs) v d s k =
        run_calls-Kept cs (run_call provider config c.0 c.1 v)
          (run_call-HasKeys provider config c.0 c.1 v d) s.1 (run_call-Kept c.0 c.1 v d s.0 k)
