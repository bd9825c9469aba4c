-- ===== src/Vault/Failures/Tells.antt =====
-- What the audit log tells of a `reveal`, whatever the store and the sink do.
use haechi.Prelude.{
  ℕ, String, ◌≡◌, ◌≢◌, ◌⊎◌, refl, sym, ap, ◌∙◌, inl, inr, Bool, true, false, Bool-cases, Option,
  none, some, List, [], ◌∷◌, ◌++◌, append-nil, append_assoc, if◌then◌else◌, Text, text_eq, Fields,
  find, utf16, Result, ok, err,
}
use haechi.Vault.Store.{TokenRecord, is_expired}
use haechi.Vault.{
  Provider, VaultConfig, reveal_disabled, unknown_token, token_expired, decrypt_failed, VaultEvent,
  Vault, safe_audit_token,
}
use haechi.Vault.Operations.{Revealed, reveal_event}
use haechi.Vault.Governance.{event_of}
use haechi.Vault.Failures.{
  SinkAnswer, taken, refused, broken, RevealError, thrown, store_failed, sink_failed, completed,
  answered, try_record, throw_after, fail_with, allow_after, try_decrypted, try_reveal_record,
  try_reveal,
}

module _ (provider : Provider) (config : VaultConfig) (sink : VaultEvent → SinkAnswer) where
  abbrev pub told : Text → String → Option Text → Option Text → VaultEvent
  told token decision type reason = record {
    operation = utf16 "token-vault:reveal";
    decision = utf16 decision;
    blocked = false;
    reason = reason;
    token = safe_audit_token provider (some token);
    token_type = type;
    count = none;
  }

  abbrev pub failed : Text → String → VaultEvent
  failed token reason = told token "reveal_failed" none (some (utf16 reason))

  abbrev pub allowed : Text → Text → VaultEvent
  allowed token type = told token "reveal_allowed" (some type) none

  abbrev pub kept : SinkAnswer → VaultEvent → List VaultEvent → List VaultEvent
  kept refused e es = es
  kept _ e es = e ∷ es

  -- The events that the sink persists of those that it is given.
  abbrev pub persisted : List VaultEvent → List VaultEvent
  persisted [] = []
  persisted (e ∷ es) = kept (sink e) e (persisted es)

  -- The events that the sink is given, by the result. Where the sink's error is thrown, either it did not take
  -- the one event of the refusal or the failure, or it did not take the event of the plaintext.
  abbrev pub IsTold : Text → Result RevealError (Revealed provider) → List VaultEvent → Type 0
  IsTold token (ok r) es = (es ≡ allowed token r.type ∷ []) × (sink (allowed token r.type) ≡ taken)
  IsTold token (err (thrown e)) es =
      (es ≡ event_of provider config token (err e) ∷ [])
      × (sink (event_of provider config token (err e)) ≡ taken)
  IsTold token (err store_failed) es =
      (es ≡ failed token "reveal_error" ∷ []) × (sink (failed token "reveal_error") ≡ taken)
  IsTold token (err sink_failed) es =
      ((e : VaultEvent) × (es ≡ e ∷ [])
        × (sink e ≢ taken)
        × ((e ≡ event_of provider config token (err reveal_disabled))
            ⊎ ((reason : String) × (e ≡ failed token reason))))
      ⊎ ((type : Text) × (es ≡ allowed token type ∷ failed token "reveal_error" ∷ [])
          × (sink (allowed token type) ≢ taken))

  abbrev pub Tells :
      Text → Vault provider → Result RevealError (Revealed provider) × Vault provider → Type 0
  Tells token v out =
      (es : List VaultEvent) × IsTold token out.0 es
      × (out.1 ≡ record v { events = v.events ++ persisted es })

  not_taken : (e : VaultEvent) (a : SinkAnswer) → sink e ≡ a → a ≢ taken → sink e ≢ taken
  not_taken e a q n t = n (sym q ∙ t)

  refused-ne-taken : refused ≢ taken
  refused-ne-taken h = cc

  broken-ne-taken : broken ≢ taken
  broken-ne-taken h = cc

  -- One event, and an error that is thrown if the sink takes it.
  throw_after-Tells :
      (token : Text) (e : VaultEvent) (error : RevealError) (v : Vault provider) (a : SinkAnswer)
      → sink e ≡ a
      → (sink e ≡ taken → IsTold token (err error) (e ∷ []))
      → ((e ≡ event_of provider config token (err reveal_disabled))
          ⊎ ((reason : String) × (e ≡ failed token reason)))
      → Tells token v (throw_after provider config sink error (answered provider config sink a e v))
  throw_after-Tells token e error v taken q t f = (e ∷ [], t q, rw q refl)
  throw_after-Tells token e error v refused q t f = (
    e ∷ [],
    inl (e, refl, not_taken e refused q refused-ne-taken, f),
    rw q (ap (λ es. record v { events = es }) (sym (append-nil v.events))),
  )
  throw_after-Tells token e error v broken q t f =
      (e ∷ [], inl (e, refl, not_taken e broken q broken-ne-taken, f), rw q refl)

  fail_with-Tells :
      (token : Text) (reason : String) (error : RevealError) (v : Vault provider)
      → config.has_audit ≡ true
      → (sink (failed token reason) ≡ taken → IsTold token (err error) (failed token reason ∷ []))
      → Tells token v (fail_with provider config sink token reason error v)
  unfolding fail_with try_record completed
  fail_with-Tells token reason error v a t = rw a (
      throw_after-Tells token (failed token reason) error v (sink (failed token reason)) refl t
        (inr (reason, refl)))

  -- The catch clause after the sink has thrown.
  fail_with-again :
      (token : Text) (v : Vault provider)
      → config.has_audit ≡ true
      → fail_with provider config sink token "reveal_error" sink_failed v ≡ (
        err sink_failed,
        record v { events = v.events ++ persisted (failed token "reveal_error" ∷ []) },
      )
  unfolding fail_with try_record completed
  fail_with-again token v a = rw a (on_answer (sink (failed token "reveal_error")) refl)
    where
      on_answer :
          (b : SinkAnswer)
          → sink (failed token "reveal_error") ≡ b
          → throw_after provider config sink sink_failed
              (answered provider config sink b (failed token "reveal_error") v)
            ≡ (
              err sink_failed,
              record v { events = v.events ++ persisted (failed token "reveal_error" ∷ []) },
            )
      on_answer taken q = rw q refl
      on_answer refused q =
          rw q (ap (λ es. (err sink_failed, record v { events = es })) (sym (append-nil v.events)))
      on_answer broken q = rw q refl

  allow_after-Tells :
      (r : Revealed provider) (v : Vault provider) (b : SinkAnswer)
      → config.has_audit ≡ true
      → sink (allowed r.token r.type) ≡ b
      → Tells r.token v (
          allow_after provider config sink r
            (answered provider config sink b (allowed r.token r.type) v))
  unfolding allow_after
  allow_after-Tells r v taken a q = (allowed r.token r.type ∷ [], (refl, q), rw q refl)
  allow_after-Tells r v refused a q = rw (fail_with-again r.token v a) (
    allowed r.token r.type ∷ failed r.token "reveal_error" ∷ [],
    inr (r.type, refl, not_taken _ refused q refused-ne-taken),
    rw q refl,
  )
  allow_after-Tells r v broken a q =
      rw (fail_with-again r.token (record v { events = v.events ++ allowed r.token r.type ∷ [] }) a)
        (
          allowed r.token r.type ∷ failed r.token "reveal_error" ∷ [],
          inr (r.type, refl, not_taken _ broken q broken-ne-taken),
          rw q (
              ap (λ es. record v { events = es })
                (append_assoc v.events (allowed r.token r.type ∷ [])
                  (persisted (failed r.token "reveal_error" ∷ [])))),
        )

  try_record-answered :
      (e : VaultEvent) (v : Vault provider)
      → config.has_audit ≡ true
      → try_record provider config sink e v
        ≡ answered provider config sink
            (sink (completed provider config sink e))
            (completed provider config sink e)
            v
  unfolding try_record
  try_record-answered e v a = rw a refl

  try_decrypted-Tells :
      (token type : Text) (o : Option Text) (v : Vault provider)
      → config.has_audit ≡ true
      → Tells token v (try_decrypted provider config sink token type o v)
  unfolding try_decrypted completed
  try_decrypted-Tells token type none v a =
      fail_with-Tells token "decrypt_failed" (thrown decrypt_failed) v a (λ q. (refl, q))
  try_decrypted-Tells token type (some s) v a =
      rw (try_record-answered (reveal_event (utf16 "reveal_allowed") token (some type) none) v a)
        (allow_after-Tells (record { token = token; type = type; plaintext = s }) v _ a refl)

  -- With an audit sink, whatever the store and the sink do: a `reveal` changes no token, and appends what the
  -- sink persists of the events that it is given. If it gives the plaintext, that is the one event
  -- `reveal_allowed` with the type, and the sink has taken it. If it throws the policy's refusal, that the
  -- token is unknown or expired, or that the envelope does not open, it is the one event of this error with
  -- its decision and reason; and `reveal_failed` with `reveal_error` where the store cannot be read. If it
  -- throws the sink's error, the sink has not taken the one event of a refusal or failure, or it has not taken
  -- `reveal_allowed`, and then it was given `reveal_failed` with `reveal_error` after it. Each event names the
  -- token as the audit may see it.
  pub try_reveal-Tells :
      (readable : Bool) (now : ℕ) (token : Text) (context : Option Fields) (v : Vault provider)
      → config.has_audit ≡ true
      → Tells token v (try_reveal provider config sink readable now token context v)
  unfolding try_reveal try_reveal_record try_record completed
  try_reveal-Tells readable now token context v a =
      elim (Bool-cases (text_eq config.reveal_policy (utf16 "disabled"))) [
        | inl x ↦
            rw (x, a)
              (throw_after-Tells token (event_of provider config token (err reveal_disabled))
                (thrown reveal_disabled) v _ refl (λ q. (refl, q)) (inl refl))
        | inr x ↦ rw x (on_store readable)
      ]
    where
      on_record :
          (o : Option (TokenRecord provider.Envelope))
          → Tells token v (try_reveal_record provider config sink now token context o v)
      on_record none =
          fail_with-Tells token "unknown_token" (thrown unknown_token) v a (λ q. (refl, q))
      on_record (some r) = elim (Bool-cases (is_expired now r)) [
        | inl y ↦
            rw y (fail_with-Tells token "token_expired" (thrown token_expired) v a (λ q. (refl, q)))
        | inr y ↦ rw y (try_decrypted-Tells token r.type _ v a)
      ]

      on_store :
          (b : Bool)
          → Tells token v (
              if b
              then try_reveal_record provider config sink now token context (find token v.tokens) v
              else fail_with provider config sink token "reveal_error" store_failed v)
      on_store true = on_record (find token v.tokens)
      on_store false = fail_with-Tells token "reveal_error" store_failed v a (λ q. (refl, q))
