-- ===== src/Vault/Tests.antt =====
-- Runs of a vault over a provider whose envelope is the text and its expiry, and the theorems about it.
use haechi.Prelude.{
  ℕ, ◌+◌, ◌%◌, ◌≤◌, ◌<◌, ◌≡◌, refl, sym, true, false, Option, none, some, List, [], ◌∷◌, ◌++◌,
  if◌then◌else◌, arith, ltb, replicate, Text, text_eq, utf16, stop, find, Result, ok, err,
}
use haechi.Vault.Store.{pruned}
use haechi.Vault.{
  Provider, VaultConfig, VaultError, decrypt_failed, Vault, safe_audit_token, is_token_shape,
  is_type_and_hash,
}
use haechi.Vault.Tokenize.{Tokenized, new_token, tokenize, store_token, store_new}
use haechi.Vault.Operations.{Revealed, reveal, detokenize}
use haechi.Vault.Calls.{Call, tokenizing, revealing, purging, run_calls}
use haechi.Vault.Reveals.{IsSound}
use haechi.Vault.RoundTrip.{tokenize-reveal, reuse-decrypt_failed}
use haechi.Vault.{VaultEvent}
use haechi.Vault.Failures.{SinkAnswer, broken, try_reveal}
use haechi.Vault.Failures.Tells.{Tells, try_reveal-Tells}
use haechi.Vault.AuditTokens.{HasSafeTokens, passed_in, run_calls-HasSafeTokens}
use haechi.Vault.Refines.{update_all, records_of, run_calls-update}

unfoldable digest : Text → Text
digest [] = replicate 32 b'0'
digest (c ∷ s) = (b'a' + c % 6) ∷ digest s

abbrev opened : ℕ → Text × ℕ → Option Text
opened now envelope = if ltb now envelope.1 then some envelope.0 else none

abbrev local : Provider
local = record {
  Envelope = Text × ℕ;
  encrypt = λ seed s aad until. some (s, until);
  decrypt = λ now envelope aad. opened now envelope;
  hmac = some (λ s domain. digest s);
  random_hash = λ seed s. replicate 16 (b'0' + seed % 10);
}

local-IsSound : IsSound local
local-IsSound = record {
  opens = λ seed until now s a e h l. opens until now s e h l;
  expires = λ seed until now s a b e h l. expires until now s e h l;
}
  where
    same : {a b : Text × ℕ} → ◌≡◌ {A = Option (Text × ℕ)} (some a) (some b) → a ≡ b
    same e = cc

    opens :
        (until now : ℕ) (s : Text) (e : Text × ℕ)
        → some (s, until) ≡ some e
        → now < until
        → opened now e ≡ some s
    opens until now s e h l = rw (sym (same h)) (ground arith)

    expires :
        (until now : ℕ) (s : Text) (e : Text × ℕ)
        → some (s, until) ≡ some e
        → until ≤ now
        → opened now e ≡ none
    expires until now s e h l = rw (sym (same h)) (ground arith)

abbrev config : VaultConfig
config = record {
  reveal_policy = utf16 "local";
  retention_days = 1;
  has_audit = true;
  deterministic = true;
  deterministic_types = some (utf16 "email" ∷ []);
}

abbrev empty : Vault local
empty = record { tokens = []; events = [] }

abbrev secret : Text
secret = utf16 "a@b"

abbrev email : Text
email = utf16 "email"

abbrev email_token : Text
email_token = new_token local config 0 secret email

shape : is_token_shape (utf16 "tok_api_key_0123456789abcdef") ≡ true
unfolding is_token_shape is_type_and_hash text_eq
shape = refl

no_shape : is_token_shape (utf16 "010-1234-5678") ≡ false
unfolding is_token_shape is_type_and_hash text_eq
no_shape = refl

-- A deterministic token does not depend on the random bytes; another type's does.
deterministic : new_token local config 3 secret email ≡ email_token
unfolding new_token text_eq
deterministic = refl

random : new_token local config 3 secret (utf16 "rrn") ≡ utf16 "tok_rrn_3333333333333333"
unfolding new_token text_eq
random = refl

abbrev made : Tokenized local
made = record { token = email_token; type = email; reused = false }

abbrev after : Vault local
after = (tokenize local config 5 0 secret email stop stop empty).1

makes : (tokenize local config 5 0 secret email stop stop empty).0 ≡ ok made
unfolding tokenize store_token store_new find pruned
makes = refl

abbrev calls : List (ℕ × Call)
calls =
    (10, revealing email_token none)
    ∷ (20, purging (utf16 "tok_x"))
    ∷ (30, tokenizing 0 secret email stop stop)
    ∷ []

spared : text_eq (utf16 "tok_x") email_token ≡ false
unfolding text_eq new_token digest
spared = refl

tokenize-reveal_example :
    (◌≡◌ {A = Result VaultError (Revealed local)}
      (reveal local config 40 email_token none (run_calls local config calls after)).0
      (ok record { token = email_token; type = email; plaintext = secret }))
    × ((detokenize local config 40 (email_token ∷ []) (run_calls local config calls after)).0
        ≡ (email_token, secret) ∷ [])
unfolding text_eq
tokenize-reveal_example =
    tokenize-reveal local config local-IsSound 5 0 40 secret email stop stop empty made calls tt
      refl makes refl
      (
        (omega arith, omega arith),
        ((omega arith, omega arith, spared), ((omega arith, omega arith), tt)),
      )
      (omega arith)

reuse-decrypt_failed_example :
    (◌≡◌ {A = Result VaultError (Tokenized local)}
      (tokenize local config 1000 7 secret email stop stop (run_calls local config calls after)).0
      (ok record { token = email_token; type = email; reused = true }))
    × ((reveal local config 86400005 email_token none
          (tokenize local config 1000 7 secret email stop stop
            (run_calls local config calls after)).1).0
        ≡ err decrypt_failed)
unfolding text_eq new_token
reuse-decrypt_failed_example =
    reuse-decrypt_failed local config local-IsSound 5 0 1000 7 86400005 secret secret email email
      stop stop stop stop empty made calls tt refl makes refl
      (
        (omega arith, omega arith),
        ((omega arith, omega arith, spared), ((omega arith, omega arith), tt)),
      )
      refl (omega arith) (omega arith) (omega arith)

-- A sink that throws after it has persisted an event: the plaintext is not given, and two events are there.
abbrev breaks : VaultEvent → SinkAnswer
breaks e = broken

try_reveal-Tells_example :
    Tells local config breaks email_token after
      (try_reveal local config breaks true 40 email_token (some stop) after)
try_reveal-Tells_example =
    try_reveal-Tells local config breaks true 40 email_token (some stop) after refl

run_calls-HasSafeTokens_example :
    HasSafeTokens local config
      ([] ++ passed_in ((1, revealing secret none) ∷ calls))
      (run_calls local config ((1, revealing secret none) ∷ calls) empty).events
run_calls-HasSafeTokens_example =
    run_calls-HasSafeTokens local config [] ((1, revealing secret none) ∷ calls) empty tt

-- A value passed for a token is not in the log.
misused :
    (safe_audit_token local (some (utf16 "ab")))
    ≡ some (utf16 "nontoken_" ++ utf16 "bc" ++ replicate 30 b'0')
unfolding safe_audit_token is_token_shape is_type_and_hash text_eq digest
misused = refl

run_calls-update_example :
    records_of local config
      (run_calls local config
        ((5, tokenizing 0 secret email stop stop) ∷ (7, purging (utf16 "tok_x")) ∷ calls)
        empty).tokens
    ≡ update_all local config
        ((5, tokenizing 0 secret email stop stop) ∷ (7, purging (utf16 "tok_x")) ∷ calls)
        (records_of local config empty.tokens)
run_calls-update_example =
    run_calls-update local config
      ((5, tokenizing 0 secret email stop stop) ∷ (7, purging (utf16 "tok_x")) ∷ calls) empty tt
