-- ===== src/Auth/Revoked.antt =====
-- A revocation is final.
use haechi.Prelude.{
  ◌≡◌, refl, sym, ap, ◌∙◌, ◌⊎◌, inl, inr, true, false, Bool-cases, Option, none, some, List, [],
  ◌∷◌, ◌++◌, if◌then◌else◌, arith, All, Text, text_eq, text_eq_iff, text_eq_swap, ok,
}
use haechi.Auth.{
  AuthToken, Identity, AuthRequest, token_domain, build_identity, bearer_token_from_request,
}
use haechi.Auth.Tokens.{
  AuthStore, find_id, disable, new_record, Revocation, revoke_token, revoke_found, read_auth_store,
}
use haechi.Auth.Authenticate.{is_match, match_tokens, identity_of, authenticate_token, authenticate}
use haechi.Auth.Calls.{
  Call, adding, revoking, tokens_of, run_call, run_calls, add_token-keeps, revoke_token-keeps,
}

-- The identifiers are distinct.
abbrev pub HasIds : List AuthToken → Type 0
HasIds [] = Unit
HasIds (r ∷ rs) = All (λ x. text_eq r.id x.id ≡ false) rs × HasIds rs

module _ (id : Text) where
  -- No record with the identifier is enabled.
  abbrev Off : AuthToken → Type 0
  Off r = (text_eq r.id id ≡ false) ⊎ (r.disabled ≡ true)

  -- A call that does not add a record with the identifier.
  abbrev pub Leaves : Call → Type 0
  Leaves (adding new) = text_eq new.id id ≡ false
  Leaves (revoking other) = Unit

  others-Off :
      (r : AuthToken) (rs : List AuthToken)
      → text_eq r.id id ≡ true
      → All (λ x. text_eq r.id x.id ≡ false) rs
      → All Off rs
  others-Off r [] e d = tt
  others-Off r (x ∷ rs) e d = (
    inl (rw (sym ((text_eq_iff r.id id).0 e)) (text_eq_swap r.id x.id d.0)),
    others-Off r rs e d.1,
  )

  disable-Off : (rs : List AuthToken) → HasIds rs → All Off (disable id rs)
  unfolding disable
  disable-Off [] d = tt
  disable-Off (r ∷ rs) d = elim (Bool-cases (text_eq r.id id)) [
    | inl e ↦ rw e (inr refl, others-Off r rs e d.0)
    | inr e ↦ rw e (inl e, disable-Off rs d.1)
  ]

  disable_any-Off : (other : Text) (rs : List AuthToken) → All Off rs → All Off (disable other rs)
  unfolding disable
  disable_any-Off other [] o = tt
  disable_any-Off other (r ∷ rs) o = elim (Bool-cases (text_eq r.id other)) [
    | inl e ↦ rw e (inr refl, o.1)
    | inr e ↦ rw e (o.0, disable_any-Off other rs o.1)
  ]

  append-Off : (rs : List AuthToken) (r : AuthToken) → All Off rs → Off r → All Off (rs ++ r ∷ [])
  append-Off [] r o p = (p, tt)
  append-Off (x ∷ rs) r o p = (o.0, append-Off rs r o.1 p)

  match-Off :
      (hash : Text) (r : AuthToken) → Off r → is_match hash r ≡ true → text_eq r.id id ≡ false
  unfolding is_match
  match-Off hash r (inl e) m = e
  match-Off hash r (inr e) m = ground arith

  same : {a b : AuthToken} → ◌≡◌ {A = Option AuthToken} (some a) (some b) → a ≡ b
  same e = cc

  -- The record that the loop keeps is not the revoked one.
  Other : Option AuthToken → Type 0
  Other none = Unit
  Other (some r) = text_eq r.id id ≡ false

  step-Other :
      (hash : Text) (r : AuthToken) (matched : Option AuthToken)
      → Off r
      → Other matched
      → Other (if is_match hash r then some r else matched)
  unfolding Other
  step-Other hash r matched o p = elim (Bool-cases (is_match hash r)) [
    | inl e ↦ rw e (match-Off hash r o e)
    | inr e ↦ rw e p
  ]

  match_tokens-Other :
      (hash : Text) (rs : List AuthToken) (matched : Option AuthToken)
      → All Off rs
      → Other matched
      → Other (match_tokens hash rs matched)
  unfolding match_tokens
  match_tokens-Other hash [] matched o p = p
  match_tokens-Other hash (r ∷ rs) matched o p =
      match_tokens-Other hash rs (if is_match hash r then some r else matched) o.1
        (step-Other hash r matched o.0 p)

  module _ (hmac : Text → Text → Text) where
    run_call-Off :
        (c : Call) (file : Option AuthStore)
        → Leaves c
        → All Off (tokens_of file)
        → All Off (tokens_of (run_call hmac c file))
    unfolding run_call new_record
    run_call-Off (adding new) file l o =
        add_token-keeps hmac (All Off) new file o
          (append-Off (tokens_of file) (new_record hmac new) o (inl l))
    run_call-Off (revoking other) file l o =
        revoke_token-keeps hmac (All Off) other file o (disable_any-Off other (tokens_of file) o)

    run_calls-Off :
        (cs : List Call) (file : Option AuthStore)
        → All Leaves cs
        → All Off (tokens_of file)
        → All Off (tokens_of (run_calls hmac cs file))
    unfolding run_calls
    run_calls-Off [] file l o = o
    run_calls-Off (c ∷ cs) file l o =
        run_calls-Off cs (run_call hmac c file) l.1 (run_call-Off c file l.0 o)

    identified :
        (m : Option AuthToken) (i : Identity)
        → Other m
        → identity_of hmac m ≡ some i
        → text_eq i.id id ≡ false
    unfolding Other identity_of build_identity
    identified none i p e = cc
    identified (some r) i p e = ap (λ x. text_eq x.id id) (sym (ap identity_in e)) ∙ p
      where
        identity_in : Option Identity → Identity
        identity_in none = i
        identity_in (some x) = x

    authenticated :
        (token : Option Text) (store : AuthStore) (i : Identity)
        → All Off store.tokens
        → authenticate_token hmac token store ≡ some i
        → text_eq i.id id ≡ false
    unfolding authenticate_token Other
    authenticated none store i o e = cc
    authenticated (some []) store i o e = cc
    authenticated (some (c ∷ s)) store i o e =
        identified (match_tokens (hmac (c ∷ s) token_domain) store.tokens none) i
          (match_tokens-Other (hmac (c ∷ s) token_domain) store.tokens none o tt) e

    revoked-Off :
        (x : Revocation) (file : Option AuthStore) (o : Option AuthToken)
        → HasIds (tokens_of file)
        → (revoke_found id o file).0 ≡ ok x
        → All Off (tokens_of (revoke_found id o file).1)
    unfolding revoke_found read_auth_store
    revoked-Off x file none d e = cc
    revoked-Off x file (some r) d e = disable-Off (tokens_of file) d

    -- A revocation is final. In a store whose identifiers are distinct, once `revokeToken` has succeeded, no
    -- request of any kind is answered with the identity of that identifier, after any calls that do not add
    -- a token under it again.
    pub revoke_token-authenticate :
        (x : Revocation) (file : Option AuthStore) (calls : List Call) (request : AuthRequest)
        (i : Identity)
        → HasIds (tokens_of file)
        → (revoke_token id file).0 ≡ ok x
        → All Leaves calls
        → authenticate hmac request (run_calls hmac calls (revoke_token id file).1) ≡ some i
        → text_eq i.id id ≡ false
    unfolding authenticate revoke_token
    revoke_token-authenticate x file calls request i d e l a =
        let w = revoke_found id (find_id id (tokens_of file)) file in
        authenticated (bearer_token_from_request request)
          (read_auth_store (run_calls hmac calls w.1)) i
          (run_calls-Off calls w.1 l (revoked-Off x file (find_id id (tokens_of file)) d e)) a
