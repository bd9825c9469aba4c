-- ===== src/Vault/RoundTrip.antt =====
-- What becomes of a value that was tokenized, through the calls that follow.
use haechi.Prelude.{
  ℕ, ◌≤◌, ◌<◌, ◌≡◌, refl, sym, ap, ◌∙◌, subst, true, false, Option, none, some, List, [], ◌∷◌,
  arith, All, Text, text_eq, text_eq_iff, Fields, find, put, utf16, find-put, Result, ok, err,
}
use haechi.Vault.Store.{pruned, is_past, HasKeys}
use haechi.Vault.{Provider, VaultConfig, VaultError, decrypt_failed, Vault}
use haechi.Vault.Tokenize.{Tokenized, new_token, tokenize}
use haechi.Vault.Operations.{Revealed, reveal, detokenize}
use haechi.Vault.Calls.{Call, tokenizing, run_call, run_calls}
use haechi.Vault.Effects.{expiry, fresh_record, tokenize-reused}
use haechi.Vault.Distinct.{run_call-HasKeys, run_calls-HasKeys}
use haechi.Vault.Keeps.{until, Kept, Spares, run_calls-Kept, Kept-pruned}
use haechi.Vault.Reveals.{
  IsSound, reveal-plaintext, reveal-decrypt_failed, detokenize-plaintext, tokenized_new,
}

module _ (provider : Provider) (config : VaultConfig) (sound : IsSound provider) where
  open provider use {Envelope, encrypt, decrypt}

  -- A tokenization that made a new record.
  record Made (start seed : ℕ) (plaintext type : Text) (context metadata : Fields)
      (v : Vault provider) (t : Tokenized provider) : Type 0 where
    pub envelope : Envelope
    pub encrypted :
        encrypt seed plaintext
          record { token = t.token; type = type; context = context }
          (until config start)
        ≡ some envelope
    pub typed : t.type ≡ type
    pub kept :
        Kept provider config t.token
          (fresh_record provider config start t.token type context metadata envelope)
          start
          (tokenize provider config start seed plaintext type context metadata v).1.tokens

  made :
      (start seed : ℕ) (plaintext type : Text) (context metadata : Fields) (v : Vault provider)
      (t : Tokenized provider)
      → (tokenize provider config start seed plaintext type context metadata v).0 ≡ ok t
      → t.reused ≡ false
      → Made start seed plaintext type context metadata v t
  made start seed plaintext type context metadata v t h n =
      let new = tokenized_new provider config start seed plaintext type context metadata v t h n in
      subst (λ t. Made start seed plaintext type context metadata v t) new.1
        (record {
          envelope = new.0;
          encrypted = new.2;
          typed = refl;
          kept = record {
            current =
                fresh_record provider config start (new_token provider config seed plaintext type)
                  type context metadata new.0;
            found =
                rw
                  (
                    new.3,
                    find-put (new_token provider config seed plaintext type)
                        (new_token provider config seed plaintext type)
                        (fresh_record provider config start
                          (new_token provider config seed plaintext type) type context metadata
                          new.0)
                        (pruned start v.tokens),
                    (text_eq_iff (new_token provider config seed plaintext type)
                          (new_token provider config seed plaintext type)).1
                        refl,
                  )
                  refl;
            same_type = refl;
            same_envelope = refl;
            same_aad = refl;
            date = until config start;
            expires = refl;
            late = omega arith;
          };
        })

  not_expired : (now date : ℕ) (o : Option ℕ) → o ≡ some date → now ≤ date → is_past now o ≡ false
  not_expired now date o e l = rw e (ground arith)

  -- With a provider that keeps its promise and a reveal policy other than "disabled": a token that
  -- `tokenize` made at a time in a vault whose tokens are distinct still stands for its value after any
  -- calls at times of the retention period of which none purges it. In that period `reveal` gives the
  -- type and the plaintext back, and `detokenize` restores the plaintext.
  pub tokenize-reveal :
      (start seed now : ℕ) (plaintext type : Text) (context metadata : Fields) (v : Vault provider)
      (t : Tokenized provider) (calls : List (ℕ × Call))
      → HasKeys v.tokens
      → text_eq config.reveal_policy (utf16 "disabled") ≡ false
      → (tokenize provider config start seed plaintext type context metadata v).0 ≡ ok t
      → t.reused ≡ false
      → All (Spares config t.token start) calls
      → now < until config start
      → (◌≡◌ {A = Result VaultError (Revealed provider)}
          (reveal provider config now t.token none (
            run_calls provider config calls
              (tokenize provider config start seed plaintext type context metadata v).1)).0
          (ok record { token = t.token; type = type; plaintext = plaintext }))
        × ((detokenize provider config now (t.token ∷ []) (
              run_calls provider config calls
                (tokenize provider config start seed plaintext type context metadata v).1)).0
            ≡ (t.token, plaintext) ∷ [])
  unfolding run_call
  tokenize-reveal start seed now plaintext type context metadata v t calls d p h n s l =
      let m = made start seed plaintext type context metadata v t h n in
      let w = (tokenize provider config start seed plaintext type context metadata v).1 in
      let k =
        run_calls-Kept provider config t.token
          (fresh_record provider config start t.token type context metadata m.envelope) start calls
          w
          (run_call-HasKeys provider config start (tokenizing seed plaintext type context metadata)
            v d)
          s m.kept in
      let lives = not_expired now k.date k.current.expires_at k.expires (omega (arith, k.late)) in
      let opened : decrypt now k.current.envelope k.current.aad ≡ some plaintext =
        rw (k.same_envelope, k.same_aad)
          (sound.opens seed (until config start) now plaintext
            record { token = t.token; type = type; context = context } m.envelope m.encrypted l) in
      let out = run_calls provider config calls w in
      (
        reveal-plaintext provider config now t.token plaintext out k.current p k.found lives opened
            ∙ ap (λ ty. ok record { token = t.token; type = ty; plaintext = plaintext })
                k.same_type,
        detokenize-plaintext provider config now t.token plaintext out k.current k.found lives
            opened,
      )

  -- A token that is made again for its value, as a deterministic one is, while its record is in the vault:
  -- the second `tokenize` answers that the token is reused and gives its record a new expiry, but the
  -- envelope keeps the first. From the first expiry to the new one the record is in the vault and `reveal`
  -- fails with the decryption's error, whatever sparing calls came between.
  pub reuse-decrypt_failed :
      (start seed again seed2 now : ℕ) (plaintext plaintext2 type type2 : Text)
      (context metadata context2 metadata2 : Fields) (v : Vault provider) (t : Tokenized provider)
      (calls : List (ℕ × Call))
      → HasKeys v.tokens
      → text_eq config.reveal_policy (utf16 "disabled") ≡ false
      → (tokenize provider config start seed plaintext type context metadata v).0 ≡ ok t
      → t.reused ≡ false
      → All (Spares config t.token start) calls
      → new_token provider config seed2 plaintext2 type2 ≡ t.token
      → again ≤ until config start
      → until config start ≤ now
      → now ≤ until config again
      → (◌≡◌ {A = Result VaultError (Tokenized provider)}
          (tokenize provider config again seed2 plaintext2 type2 context2 metadata2 (
            run_calls provider config calls
              (tokenize provider config start seed plaintext type context metadata v).1)).0
          (ok record { token = t.token; type = type2; reused = true }))
        × ((reveal provider config now t.token none
              (tokenize provider config again seed2 plaintext2 type2 context2 metadata2 (
                run_calls provider config calls
                  (tokenize provider config start seed plaintext type context metadata v).1)).1).0
            ≡ err decrypt_failed)
  unfolding run_call
  reuse-decrypt_failed start seed again seed2 now plaintext plaintext2 type type2 context metadata
        context2 metadata2 v t calls d p h n s e a l u =
      let m = made start seed plaintext type context metadata v t h n in
      let w = (tokenize provider config start seed plaintext type context metadata v).1 in
      let dw =
        run_call-HasKeys provider config start (tokenizing seed plaintext type context metadata) v
          d in
      let stored = fresh_record provider config start t.token type context metadata m.envelope in
      let k =
        Kept-pruned provider config t.token stored start again
          (run_calls provider config calls w).tokens (run_calls-HasKeys provider config calls w dw)
          a (run_calls-Kept provider config t.token stored start calls w dw s m.kept) in
      let out = run_calls provider config calls w in
      let r = record k.current { expires_at = expiry provider config again } in
      let was =
        tokenize-reused provider config again seed2 plaintext2 type2 context2 metadata2 out
          k.current
          (subst (λ x. find x (pruned again out.tokens) ≡ some k.current) (sym e) k.found) in
      let shut : decrypt now k.current.envelope k.current.aad ≡ none =
        rw (k.same_envelope, k.same_aad)
          (sound.expires seed (until config start) now plaintext
            record { token = t.token; type = type; context = context } stored.aad m.envelope
            m.encrypted l) in
      let lives = not_expired now (until config again) (expiry provider config again) refl u in
      let there : find t.token (put t.token r (pruned again out.tokens)) ≡ some r =
        rw
          (
            find-put t.token t.token r (pruned again out.tokens),
            (text_eq_iff t.token t.token).1 refl,
          )
          refl in
      (
        ap (λ x. x.0) was ∙ ap (λ x. ok record { token = x; type = type2; reused = true }) e,
        rw (was, e)
            (reveal-decrypt_failed provider config now t.token
              (record out { tokens = put t.token r (pruned again out.tokens) }) r p there lives
              shut),
      )
