-- ===== src/Auth/Calls.antt =====
-- Sequences of the calls that write the store's file, and what one of them can make of its records.
use haechi.Prelude.{Option, none, some, List, [], ◌∷◌, ◌++◌, Text}
use haechi.Auth.{AuthToken, AuthError, claims_error}
use haechi.Auth.Tokens.{
  AuthStore, read_auth_store, NewToken, new_record, add_token, add_checked, revoke_token,
  revoke_found, find_id, disable,
}

pub data Call : Type 0 where
  adding : NewToken → Call
  revoking : Text → Call

abbrev pub tokens_of : Option AuthStore → List AuthToken
unfolding read_auth_store
tokens_of file = (read_auth_store file).tokens

module _ (hmac : Text → Text → Text) where
  unfoldable pub run_call : Call → Option AuthStore → Option AuthStore
  unfolding add_token revoke_token
  run_call (adding new) file = (add_token hmac new file).1
  run_call (revoking id) file = (revoke_token id file).1

  unfoldable pub run_calls : List Call → Option AuthStore → Option AuthStore
  unfolding run_call
  run_calls [] file = file
  run_calls (c ∷ cs) file = run_calls cs (run_call c file)

  module _ (P : List AuthToken → Type 0) where
    add_checked-keeps :
        (new : NewToken) (o : Option AuthError) (file : Option AuthStore)
        → P (tokens_of file)
        → P (tokens_of file ++ new_record hmac new ∷ [])
        → P (tokens_of (add_checked hmac new o file).1)
    unfolding read_auth_store add_checked
    add_checked-keeps new (some e) file p q = p
    add_checked-keeps new none file p q = q

    pub add_token-keeps :
        (new : NewToken) (file : Option AuthStore)
        → P (tokens_of file)
        → P (tokens_of file ++ new_record hmac new ∷ [])
        → P (tokens_of (add_token hmac new file).1)
    unfolding add_token
    add_token-keeps new file p q =
        add_checked-keeps new (claims_error new.allowed_label_keys new.type new.scopes new.labels)
          file p q

    revoke_found-keeps :
        (id : Text) (o : Option AuthToken) (file : Option AuthStore)
        → P (tokens_of file)
        → P (disable id (tokens_of file))
        → P (tokens_of (revoke_found id o file).1)
    unfolding read_auth_store revoke_found
    revoke_found-keeps id none file p q = p
    revoke_found-keeps id (some r) file p q = q

    pub revoke_token-keeps :
        (id : Text) (file : Option AuthStore)
        → P (tokens_of file)
        → P (disable id (tokens_of file))
        → P (tokens_of (revoke_token id file).1)
    unfolding revoke_token
    revoke_token-keeps id file p q = revoke_found-keeps id (find_id id (tokens_of file)) file p q
