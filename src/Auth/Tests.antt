-- ===== src/Auth/Tests.antt =====
-- Runs of the bearer provider, with a hash that writes the domain before the text.
use haechi.Prelude.{
  ◌≡◌, refl, true, false, Option, none, some, List, [], ◌∷◌, ◌++◌, Text, text_eq, utf16, array,
  string, end, item, stop, field, ok, err,
}
use haechi.Auth.{
  bad_label_value, AuthRequest, default_allowed_label_keys, build_identity,
  bearer_token_from_request,
}
use haechi.Auth.Tokens.{
  AuthStore, NewToken, new_record, Added, public_record, add_token, revoke_token, read_auth_store,
  list_tokens,
}
use haechi.Auth.Authenticate.{authenticate}
use haechi.Auth.Calls.{Call, adding, revoking, run_calls}
use haechi.Auth.Revoked.{revoke_token-authenticate}
use haechi.Auth.Accepts.{add_token-authenticate}

abbrev mac : Text → Text → Text
mac s domain = domain ++ s

abbrev service : NewToken
service = record {
  id = utf16 "a";
  random = utf16 "Xy-1";
  created_at = utf16 "2026-01-01";
  type = utf16 "service";
  scopes = array (item (string (utf16 "chat")) end);
  labels = field (utf16 "team") (string (utf16 "red")) stop;
  allowed_label_keys = default_allowed_label_keys;
}

abbrev agent : NewToken
agent = record service { id = utf16 "b"; random = utf16 "Zz-2"; type = utf16 "agent" }

abbrev issued : Added
issued = record { token = utf16 "hae_Xy-1"; shown = public_record (new_record mac service) }

abbrev bearing : Text → AuthRequest
bearing s = record { headers = some (field (utf16 "authorization") (string s) stop) }

reads : bearer_token_from_request (bearing (utf16 " bEARER \t hae_Xy-1 ")) ≡ some issued.token
unfolding bearer_token_from_request
reads = refl

reads_none : bearer_token_from_request (bearing (utf16 "Bearerhae_Xy-1")) ≡ none
unfolding bearer_token_from_request
reads_none = refl

refuses :
    (add_token mac (record service { labels = field (utf16 "env") (string []) stop }) none).0
    ≡ err (bad_label_value (utf16 "env"))
unfolding add_token
refuses = refl

adds : (add_token mac service none).0 ≡ ok issued
unfolding add_token new_record public_record
adds = refl

add_token-authenticate_example :
    authenticate mac
      (bearing (utf16 " bEARER \t hae_Xy-1 "))
      (run_calls mac (adding agent ∷ revoking (utf16 "b") ∷ []) (add_token mac service none).1)
    ≡ some (build_identity mac (new_record mac service))
unfolding text_eq
add_token-authenticate_example =
    add_token-authenticate mac service issued none (adding agent ∷ revoking (utf16 "b") ∷ [])
      (bearing (utf16 " bEARER \t hae_Xy-1 ")) adds (refl, (refl, tt)) reads

abbrev two : Option AuthStore
two = (add_token mac agent (add_token mac service none).1).1

abbrev later : List Call
later = adding (record service { id = utf16 "c" }) ∷ []

still :
    authenticate mac
      (bearing (utf16 "Bearer hae_Zz-2"))
      (run_calls mac later (revoke_token (utf16 "a") two).1)
    ≡ some (build_identity mac (new_record mac agent))
unfolding authenticate run_calls revoke_token add_token
still = refl

revokes : (revoke_token (utf16 "a") two).0 ≡ ok record { id = utf16 "a"; revoked = true }
unfolding revoke_token add_token
revokes = refl

-- A listing keeps a revoked token, marked as disabled.
lists :
    list_tokens (revoke_token (utf16 "a") two).1
    ≡ record (public_record (new_record mac service)) { disabled = true }
      ∷ public_record (new_record mac agent)
      ∷ []
unfolding list_tokens revoke_token add_token
lists = refl

revoke_token-authenticate_example :
    text_eq (build_identity mac (new_record mac agent)).id (utf16 "a") ≡ false
unfolding add_token read_auth_store text_eq
revoke_token-authenticate_example =
    revoke_token-authenticate (utf16 "a") mac record { id = utf16 "a"; revoked = true } two later
      (bearing (utf16 "Bearer hae_Zz-2")) (build_identity mac (new_record mac agent))
      ((refl, tt), (tt, tt)) revokes (refl, tt) still
