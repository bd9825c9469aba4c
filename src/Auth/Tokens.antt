-- ===== src/Auth/Tokens.antt =====
-- packages/auth/index.mjs: `addToken`, `listTokens` and `revokeToken` over the store's file, which is `none`
-- until it is written. The random bytes, the identifier and the date of a new token are arguments.
use haechi.Prelude.{
  Bool, true, false, not, Option, none, some, List, [], ◌∷◌, ◌++◌, if◌then◌else◌, map, Text,
  text_eq, Json, number, Fields, Result, ok, err,
}
use haechi.Auth.{AuthError, unknown_id, AuthToken, token_domain, token_prefix, claims_error}

abbrev pub first_version : Json
first_version = number 1

pub record AuthStore : Type 0 where
  pub version : Json
  pub tokens : List AuthToken

pub record PublicRecord : Type 0 where
  pub id : Text
  pub type : Text
  pub scopes : Json
  pub labels : Fields
  pub created_at : Text
  pub disabled : Bool

unfoldable pub public_record : AuthToken → PublicRecord
public_record r = record {
  id = r.id;
  type = r.type;
  scopes = r.scopes;
  labels = r.labels;
  created_at = r.created_at;
  disabled = r.disabled;
}

pub record Added : Type 0 where
  pub token : Text
  pub shown : PublicRecord

pub record Revocation : Type 0 where
  pub id : Text
  pub revoked : Bool

-- What a new token is made of.
pub record NewToken : Type 0 where
  pub id : Text
  pub random : Text
  pub created_at : Text
  pub type : Text
  pub scopes : Json
  pub labels : Fields
  pub allowed_label_keys : List Text

unfoldable pub read_auth_store : Option AuthStore → AuthStore
read_auth_store none = record { version = first_version; tokens = [] }
read_auth_store (some store) = store

-- `store.tokens.find((entry) => entry.id === id)`
unfoldable pub find_id : Text → List AuthToken → Option AuthToken
unfolding text_eq
find_id id [] = none
find_id id (r ∷ rs) = let rest = find_id id rs in if text_eq r.id id then some r else rest

-- `record.disabled = true` on the record that `find` gives.
unfoldable pub disable : Text → List AuthToken → List AuthToken
unfolding text_eq
disable id [] = []
disable id (r ∷ rs) =
    let rest = disable id rs in
    if text_eq r.id id then record r { disabled = true } ∷ rs else r ∷ rest

unfoldable pub list_tokens : Option AuthStore → List PublicRecord
unfolding read_auth_store public_record
list_tokens file = map public_record (read_auth_store file).tokens

unfoldable pub revoke_found :
    Text → Option AuthToken → Option AuthStore → Result AuthError Revocation × Option AuthStore
unfolding read_auth_store disable
revoke_found id none file = (err (unknown_id id), file)
revoke_found id (some r) file = (
  ok record { id = id; revoked = not r.disabled },
  some (record (read_auth_store file) { tokens = disable id (read_auth_store file).tokens }),
)

unfoldable pub revoke_token :
    Text → Option AuthStore → Result AuthError Revocation × Option AuthStore
unfolding revoke_found find_id
revoke_token id file = revoke_found id (find_id id (read_auth_store file).tokens) file

module _ (hmac : Text → Text → Text) where
  abbrev pub token_text : NewToken → Text
  token_text new = token_prefix ++ new.random

  unfoldable pub new_record : NewToken → AuthToken
  new_record new = record {
    id = new.id;
    token_hash = hmac (token_text new) token_domain;
    type = new.type;
    scopes = new.scopes;
    labels = new.labels;
    created_at = new.created_at;
    disabled = false;
  }

  unfoldable pub add_checked :
      NewToken → Option AuthError → Option AuthStore → Result AuthError Added × Option AuthStore
  unfolding read_auth_store new_record public_record
  add_checked new (some e) file = (err e, file)
  add_checked new none file = (
    ok record { token = token_text new; shown = public_record (new_record new) },
    some (record (read_auth_store file) {
      tokens = (read_auth_store file).tokens ++ new_record new ∷ [];
    }),
  )

  unfoldable pub add_token : NewToken → Option AuthStore → Result AuthError Added × Option AuthStore
  unfolding add_checked claims_error
  add_token new file =
      add_checked new (claims_error new.allowed_label_keys new.type new.scopes new.labels) file
