-- ===== src/Auth/Authenticate.antt =====
-- packages/auth/index.mjs: `authenticate` of the bearer provider.
use haechi.Prelude.{
  Bool, not, ◌&&◌, Option, none, some, List, [], ◌∷◌, if◌then◌else◌, Text, text_eq,
}
use haechi.Auth.{
  AuthToken, Identity, AuthRequest, token_domain, bearer_token_from_request, build_identity,
}
use haechi.Auth.Tokens.{AuthStore, read_auth_store}

-- `!record.disabled && constantTimeHashMatch(candidateHash, record.tokenHash)`
unfoldable pub is_match : Text → AuthToken → Bool
unfolding text_eq
is_match hash r = not r.disabled && text_eq hash r.token_hash

-- The loop over the records with `matched`: the last match is left.
unfoldable pub match_tokens : Text → List AuthToken → Option AuthToken → Option AuthToken
unfolding is_match
match_tokens hash [] matched = matched
match_tokens hash (r ∷ rs) matched =
    match_tokens hash rs (if is_match hash r then some r else matched)

module _ (hmac : Text → Text → Text) where
  unfoldable pub identity_of : Option AuthToken → Option Identity
  unfolding build_identity
  identity_of none = none
  identity_of (some r) = some (build_identity hmac r)

  unfoldable pub authenticate_token : Option Text → AuthStore → Option Identity
  unfolding identity_of match_tokens
  authenticate_token none store = none
  authenticate_token (some []) store = none
  authenticate_token (some (c ∷ s)) store =
      identity_of (match_tokens (hmac (c ∷ s) token_domain) store.tokens none)

  unfoldable pub authenticate : AuthRequest → Option AuthStore → Option Identity
  unfolding authenticate_token bearer_token_from_request read_auth_store
  authenticate request file =
      authenticate_token (bearer_token_from_request request) (read_auth_store file)
