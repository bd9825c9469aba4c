-- ===== src/Vault/AuditTokens.antt =====
-- What the audit events of a vault may hold in their field `token`.
pub mod Shape
use haechi.Prelude.{
  ℕ, ◌≡◌, ◌⊎◌, refl, inl, inr, true, Bool-cases, Option, none, some, List, [], ◌∷◌, ◌++◌, All, Text,
  text_eq, Fields, find, erase, length, utf16, In, take, false,
}
use haechi.Vault.Store.{TokenRecord, Aad, is_expired, pruned, purged, add_days}
use haechi.Vault.{
  Provider, VaultConfig, VaultEvent, Vault, record_vault_event, safe_audit_token, is_token_shape,
  nontoken, audit_id_domain,
}
use haechi.Vault.Tokenize.{tokenize, store_token, store_new, new_token}
use haechi.Vault.Operations.{
  reveal, reveal_event, reveal_record, reveal_decrypted, detokenize, restore_all, purge,
  purge_expired, counted_event, skipped_reason,
}
use haechi.Vault.Calls.{
  Call, tokenizing, revealing, detokenizing, purging, purging_expired, run_call, run_calls,
}
use haechi.Vault.AuditTokens.Shape.{HasTokenShape, is_token_shape-HasTokenShape}

-- What stands for a text that is no token: its keyed hash, or a marker where there is no keyed hash.
abbrev pub IsStandIn : Option (Text → Text → Text) → Text → Text → Type 0
IsStandIn none raw t = t ≡ utf16 "[REDACTED:non-token]"
IsStandIn (some mac) raw t = t ≡ utf16 "nontoken_" ++ take 32 (mac raw audit_id_domain)

-- What a call passes for a token that its event names, and what all calls pass.
abbrev pub passed_by : Call → List Text
passed_by (revealing token context) = token ∷ []
passed_by (purging token) = token ∷ []
passed_by _ = []

unfoldable pub passed_in : List (ℕ × Call) → List Text
unfolding passed_by
passed_in [] = []
passed_in (c ∷ cs) = passed_by c.1 ++ passed_in cs

In-append_left : (t : Text) (xs ys : List Text) → In t xs → In t (xs ++ ys)
In-append_left t [] ys h = elim h [ ]
In-append_left t (x ∷ xs) ys (inl e) = inl e
In-append_left t (x ∷ xs) ys (inr m) = inr (In-append_left t xs ys m)

In-append_right : (t : Text) (xs ys : List Text) → In t ys → In t (xs ++ ys)
In-append_right t [] ys h = h
In-append_right t (x ∷ xs) ys h = inr (In-append_right t xs ys h)

abbrev WasPassed : List Text → Option Text → Type 0
WasPassed passed none = Unit
WasPassed passed (some t) = In t passed

module _ (provider : Provider) (config : VaultConfig) where
  -- No token, a text of a token's shape that was passed, or what stands for another that was passed.
  abbrev pub IsSafe : List Text → Option Text → Type 0
  IsSafe passed none = Unit
  IsSafe passed (some t) =
      (HasTokenShape t × In t passed)
      ⊎ ((raw : Text) × In raw passed
          × (is_token_shape raw ≡ false)
          × IsStandIn provider.hmac raw t)

  abbrev pub HasSafeTokens : List Text → List VaultEvent → Type 0
  HasSafeTokens passed = All (λ e. IsSafe passed e.token)

  IsSafe-mono :
      (xs ys : List Text) (o : Option Text)
      → ((t : Text) → In t xs → In t ys)
      → IsSafe xs o
      → IsSafe ys o
  IsSafe-mono xs ys none f h = tt
  IsSafe-mono xs ys (some t) f (inl (shape, m)) = inl (shape, f t m)
  IsSafe-mono xs ys (some t) f (inr (raw, m, other, stands)) = inr (raw, f raw m, other, stands)

  HasSafeTokens-mono :
      (xs ys : List Text) (es : List VaultEvent)
      → ((t : Text) → In t xs → In t ys)
      → HasSafeTokens xs es
      → HasSafeTokens ys es
  HasSafeTokens-mono xs ys [] f h = tt
  HasSafeTokens-mono xs ys (e ∷ es) f h =
      (IsSafe-mono xs ys e.token f h.0, HasSafeTokens-mono xs ys es f h.1)

  nontoken-IsStandIn :
      (hmac : Option (Text → Text → Text)) (raw : Text)
      → IsStandIn hmac raw (nontoken provider hmac raw)
  nontoken-IsStandIn none raw = refl
  nontoken-IsStandIn (some mac) raw = refl

  module _ (passed : List Text) where
    safe_audit_token-IsSafe :
        (token : Option Text)
        → WasPassed passed token
        → IsSafe passed (safe_audit_token provider token)
    unfolding safe_audit_token
    safe_audit_token-IsSafe none m = tt
    safe_audit_token-IsSafe (some t) m = elim (Bool-cases (is_token_shape t)) [
      | inl e ↦ rw e (inl (is_token_shape-HasTokenShape t e, m))
      | inr e ↦ rw e (inr (t, m, e, nontoken-IsStandIn provider.hmac t))
    ]

    HasSafeTokens-append :
        (xs ys : List VaultEvent)
        → HasSafeTokens passed xs
        → HasSafeTokens passed ys
        → HasSafeTokens passed (xs ++ ys)
    HasSafeTokens-append [] ys h k = k
    HasSafeTokens-append (x ∷ xs) ys h k = (h.0, HasSafeTokens-append xs ys h.1 k)

    record_vault_event-HasSafeTokens :
        (e : VaultEvent) (v : Vault provider)
        → WasPassed passed e.token
        → HasSafeTokens passed v.events
        → HasSafeTokens passed (record_vault_event provider config e v).events
    unfolding record_vault_event
    record_vault_event-HasSafeTokens e v m h = elim (Bool-cases config.has_audit) [
      | inl a ↦ rw a (HasSafeTokens-append v.events _ h (safe_audit_token-IsSafe e.token m, tt))
      | inr a ↦ rw a h
    ]

    tokenize-HasSafeTokens :
        (now seed : ℕ) (plaintext type : Text) (context metadata : Fields) (v : Vault provider)
        → HasSafeTokens passed v.events
        → HasSafeTokens passed
            (tokenize provider config now seed plaintext type context metadata v).1.events
    unfolding tokenize
    tokenize-HasSafeTokens now seed plaintext type context metadata v h =
        on_record (find (new_token provider config seed plaintext type) (pruned now v.tokens))
      where
        token : Text
        token = new_token provider config seed plaintext type

        aad : Aad
        aad = record { token = token; type = type; context = context }

        on_envelope :
            (o : Option provider.Envelope)
            → HasSafeTokens passed
                (store_new provider config now token aad metadata o
                  (pruned now v.tokens)
                  v).1.events
        on_envelope none = h
        on_envelope (some e) = h

        on_record :
            (o : Option (TokenRecord provider.Envelope))
            → HasSafeTokens passed
                (store_token provider config now seed token plaintext aad metadata o
                  (pruned now v.tokens)
                  v).1.events
        on_record none =
            on_envelope (provider.encrypt seed plaintext aad (add_days now config.retention_days))
        on_record (some r) = h

    reveal-HasSafeTokens :
        (now : ℕ) (token : Text) (context : Option Fields) (v : Vault provider)
        → In token passed
        → HasSafeTokens passed v.events
        → HasSafeTokens passed (reveal provider config now token context v).1.events
    unfolding reveal
    reveal-HasSafeTokens now token context v m h =
        elim (Bool-cases (text_eq config.reveal_policy (utf16 "disabled"))) [
          | inl x ↦ rw x (
              record_vault_event-HasSafeTokens
                (reveal_event (utf16 "reveal_denied") token none
                  (some (utf16 "reveal_policy_disabled")))
                v m h)
          | inr x ↦ rw x (on_record (find token v.tokens))
        ]
      where
        on_plaintext :
            (type : Text) (o : Option Text)
            → HasSafeTokens passed (reveal_decrypted provider config token type o v).1.events
        on_plaintext type none =
            record_vault_event-HasSafeTokens
              (reveal_event (utf16 "reveal_failed") token none (some (utf16 "decrypt_failed"))) v m
              h
        on_plaintext type (some s) =
            record_vault_event-HasSafeTokens
              (reveal_event (utf16 "reveal_allowed") token (some type) none) v m h

        on_record :
            (o : Option (TokenRecord provider.Envelope))
            → HasSafeTokens passed (reveal_record provider config now token context o v).1.events
        on_record none =
            record_vault_event-HasSafeTokens
              (reveal_event (utf16 "reveal_failed") token none (some (utf16 "unknown_token"))) v m h
        on_record (some r) = elim (Bool-cases (is_expired now r)) [
          | inl y ↦ rw y (
              record_vault_event-HasSafeTokens
                (reveal_event (utf16 "reveal_failed") token none (some (utf16 "token_expired"))) v m
                h)
          | inr y ↦ rw y (on_plaintext r.type _)
        ]

    run_call-HasSafeTokens :
        (now : ℕ) (c : Call) (v : Vault provider)
        → ((t : Text) → In t (passed_by c) → In t passed)
        → HasSafeTokens passed v.events
        → HasSafeTokens passed (run_call provider config now c v).events
    unfolding run_call detokenize purge purge_expired
    run_call-HasSafeTokens now (tokenizing seed plaintext type context metadata) v f h =
        tokenize-HasSafeTokens now seed plaintext type context metadata v h
    run_call-HasSafeTokens now (revealing token context) v f h =
        reveal-HasSafeTokens now token context v (f token (inl refl)) h
    run_call-HasSafeTokens now (detokenizing tokens) v f h =
        record_vault_event-HasSafeTokens
          (counted_event "token-vault:detokenize" "detokenize"
            (skipped_reason (restore_all provider now v.tokens tokens ([], 0)).1) none
            (some (length (restore_all provider now v.tokens tokens ([], 0)).0)))
          v tt h
    run_call-HasSafeTokens now (purging token) v f h =
        record_vault_event-HasSafeTokens
          (counted_event "token-vault:purge" "purge" none (some token) none)
          (record v { tokens = erase token (pruned now v.tokens) }) (f token (inl refl)) h
    run_call-HasSafeTokens now purging_expired v f h =
        record_vault_event-HasSafeTokens
          (counted_event "token-vault:purge-expired" "purge_expired" none none
            (some (purged now v.tokens)))
          (record v { tokens = pruned now v.tokens }) tt h

    all_calls-HasSafeTokens :
        (calls : List (ℕ × Call)) (v : Vault provider)
        → ((t : Text) → In t (passed_in calls) → In t passed)
        → HasSafeTokens passed v.events
        → HasSafeTokens passed (run_calls provider config calls v).events
    unfolding run_calls passed_in
    all_calls-HasSafeTokens [] v f h = h
    all_calls-HasSafeTokens (c ∷ cs) v f h =
        all_calls-HasSafeTokens cs (run_call provider config c.0 c.1 v)
          (λ t m. f t (In-append_right t (passed_by c.1) (passed_in cs) m))
          (run_call-HasSafeTokens c.0 c.1 v
            (λ t m. f t (In-append_left t (passed_by c.1) (passed_in cs) m)) h)

  -- Whatever calls follow, with any text passed for a token, the field `token` of every audit event is
  -- empty, or a text that was passed to a `reveal` or a `purge` and has a token's shape - `tok_`, a type, an
  -- underscore and at least sixteen hexadecimal digits - or what stands for a passed text that is no token:
  -- its keyed hash, and the fixed marker where the provider has no keyed hash; provided that it is so for the
  -- events before, with what was passed earlier.
  pub run_calls-HasSafeTokens :
      (earlier : List Text) (calls : List (ℕ × Call)) (v : Vault provider)
      → HasSafeTokens earlier v.events
      → HasSafeTokens (earlier ++ passed_in calls) (run_calls provider config calls v).events
  run_calls-HasSafeTokens earlier calls v h =
      all_calls-HasSafeTokens (earlier ++ passed_in calls) calls v
        (λ t m. In-append_right t earlier (passed_in calls) m)
        (HasSafeTokens-mono earlier (earlier ++ passed_in calls) v.events
          (λ t m. In-append_left t earlier (passed_in calls) m) h)
