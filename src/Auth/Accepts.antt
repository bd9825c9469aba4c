-- ===== src/Auth/Accepts.antt =====
-- A token that was added.
use haechi.Prelude.{
  ◌≡◌, refl, sym, ap, ◌∙◌, ◌⊎◌, inl, inr, true, false, Bool-cases, Option, none, some, List, [],
  ◌∷◌, ◌++◌, if◌then◌else◌, subst, All, Text, text_eq, text_eq_iff, Result, ok, err,
}
use haechi.Auth.{
  AuthToken, AuthError, AuthRequest, claims_error, token_domain, build_identity,
  bearer_token_from_request,
}
use haechi.Auth.Tokens.{
  AuthStore, disable, NewToken, token_text, new_record, Added, add_token, add_checked,
  read_auth_store,
}
use haechi.Auth.Authenticate.{is_match, match_tokens, identity_of, authenticate_token, authenticate}
use haechi.Auth.Calls.{
  Call, adding, revoking, tokens_of, run_call, run_calls, add_token-keeps, revoke_token-keeps,
}

-- The loop gives this record whatever it holds before, or it gives what it holds.
match_start :
    (hash : Text) (rs : List AuthToken) (x r : AuthToken)
    → match_tokens hash rs (some x) ≡ some r
    → (x ≡ r) ⊎ ((m : Option AuthToken) → match_tokens hash rs m ≡ some r)
unfolding match_tokens
match_start hash [] x r e = inl (same e)
  where
    same : {a b : AuthToken} → ◌≡◌ {A = Option AuthToken} (some a) (some b) → a ≡ b
    same e = cc
match_start hash (y ∷ rs) x r e = elim (Bool-cases (is_match hash y)) [
  | inl t ↦
      inr (λ m. rw t ((ap (λ b. match_tokens hash rs (if b then some y else some x)) (sym t)) ∙ e))
  | inr f ↦
      elim (match_start hash rs x r
        (ap (λ b. match_tokens hash rs (if b then some y else some x)) (sym f) ∙ e)) [
          | inl s ↦ inl s
          | inr a ↦ inr (λ m. rw f (a m))
        ]
]

match_append :
    (hash : Text) (rs : List AuthToken) (x : AuthToken) (m : Option AuthToken)
    → match_tokens hash (rs ++ x ∷ []) m
      ≡ (if is_match hash x then some x else match_tokens hash rs m)
unfolding match_tokens
match_append hash [] x m = refl
match_append hash (y ∷ rs) x m = match_append hash rs x (if is_match hash y then some y else m)

-- A record with another identifier than the result's may be left out.
match_skip :
    (hash id : Text) (x : AuthToken) (rs : List AuthToken) (m : Option AuthToken) (r : AuthToken)
    → text_eq x.id id ≡ true
    → text_eq r.id id ≡ false
    → match_tokens hash rs (if is_match hash x then some x else m) ≡ some r
    → match_tokens hash rs m ≡ some r
match_skip hash id x rs m r t o e = elim (Bool-cases (is_match hash x)) [
  | inr f ↦ ap (λ b. match_tokens hash rs (if b then some x else m)) (sym f) ∙ e
  | inl y ↦
      elim (match_start hash rs x r
        (ap (λ b. match_tokens hash rs (if b then some x else m)) (sym y) ∙ e)) [
          | inl s ↦ let clash : true ≡ false = sym t ∙ ap (λ z. text_eq z.id id) s ∙ o in cc
          | inr a ↦ a m
        ]
]

match-disable :
    (hash id : Text) (rs : List AuthToken) (m : Option AuthToken) (r : AuthToken)
    → text_eq r.id id ≡ false
    → match_tokens hash rs m ≡ some r
    → match_tokens hash (disable id rs) m ≡ some r
unfolding match_tokens disable
match-disable hash id [] m r o e = e
match-disable hash id (x ∷ rs) m r o e = elim (Bool-cases (text_eq x.id id)) [
  | inl t ↦ rw t (match_skip hash id x rs m r t o e)
  | inr f ↦ rw f (match-disable hash id rs (if is_match hash x then some x else m) r o e)
]

module _ (hmac : Text → Text → Text) where
  -- A call that neither revokes the new token nor adds one with its hash.
  abbrev pub Spares : NewToken → Call → Type 0
  Spares new (adding other) =
      text_eq (hmac (token_text hmac new) token_domain) (hmac (token_text hmac other) token_domain)
      ≡ false
  Spares new (revoking id) = text_eq new.id id ≡ false

  hash_of : NewToken → Text
  hash_of new = (new_record hmac new).token_hash

  Matched : NewToken → List AuthToken → Type 0
  Matched new rs = match_tokens (hash_of new) rs none ≡ some (new_record hmac new)

  added-Matched :
      (new : NewToken) (rs : List AuthToken) → Matched new (rs ++ new_record hmac new ∷ [])
  unfolding Matched hash_of is_match new_record
  added-Matched new rs =
      match_append (hash_of new) rs (new_record hmac new) none
      ∙ rw ((text_eq_iff (hash_of new) (hash_of new)).1 refl) refl

  run_call-Matched :
      (new : NewToken) (c : Call) (file : Option AuthStore)
      → Spares new c
      → Matched new (tokens_of file)
      → Matched new (tokens_of (run_call hmac c file))
  unfolding run_call Matched hash_of is_match new_record
  run_call-Matched new (adding other) file l p =
      add_token-keeps hmac (Matched new) other file p
        (match_append (hash_of new) (tokens_of file) (new_record hmac other) none ∙ rw l p)
  run_call-Matched new (revoking id) file l p =
      revoke_token-keeps hmac (Matched new) id file p
        (match-disable (hash_of new) id (tokens_of file) none (new_record hmac new) l p)

  run_calls-Matched :
      (new : NewToken) (cs : List Call) (file : Option AuthStore)
      → All (Spares new) cs
      → Matched new (tokens_of file)
      → Matched new (tokens_of (run_calls hmac cs file))
  unfolding run_calls
  run_calls-Matched new [] file l p = p
  run_calls-Matched new (c ∷ cs) file l p =
      run_calls-Matched new cs (run_call hmac c file) l.1 (run_call-Matched new c file l.0 p)

  added_checked :
      (new : NewToken) (a : Added) (file : Option AuthStore) (o : Option AuthError)
      → (add_checked hmac new o file).0 ≡ ok a
      → (a.token ≡ token_text hmac new)
        × (tokens_of (add_checked hmac new o file).1 ≡ tokens_of file ++ new_record hmac new ∷ [])
  unfolding add_checked read_auth_store
  added_checked new a file none e = (sym (ap (λ x. token_in x) e), refl)
    where
      token_in : Result AuthError Added → Text
      token_in (ok x) = x.token
      token_in (err x) = []
  added_checked new a file (some x) e = cc

  -- A token that `addToken` gave back is good until it is revoked. After any calls that revoke other
  -- identifiers only and add no token with its hash, a request that bears it is answered with the identity of
  -- the record that was added: its identifier, type, scopes and labels, and keyed hashes in place of the
  -- identifier and the issuer.
  pub add_token-authenticate :
      (new : NewToken) (a : Added) (file : Option AuthStore) (calls : List Call)
      (request : AuthRequest)
      → (add_token hmac new file).0 ≡ ok a
      → All (Spares new) calls
      → bearer_token_from_request request ≡ some a.token
      → authenticate hmac request (run_calls hmac calls (add_token hmac new file).1)
        ≡ some (build_identity hmac (new_record hmac new))
  unfolding add_token authenticate authenticate_token identity_of Matched hash_of new_record
  add_token-authenticate new a file calls request e l b =
      let errors = claims_error new.allowed_label_keys new.type new.scopes new.labels in
      let w = added_checked new a file errors e in
      let out = run_calls hmac calls (add_checked hmac new errors file).1 in
      let kept =
        run_calls-Matched new calls (add_checked hmac new errors file).1 l
          (subst (Matched new) (sym w.1) (added-Matched new (tokens_of file))) in
      ap (λ t. authenticate_token hmac t (read_auth_store out)) (b ∙ ap some w.0)
      ∙ ap (identity_of hmac) kept
