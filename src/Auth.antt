-- ===== src/Auth.antt =====
-- packages/auth/index.mjs: the records of the bearer tokens, the identities and the header of a request.
-- The crypto provider's keyed hash is a parameter; a hash is a text without lone surrogates. The claims
-- about an external identity and a token's type are texts.
use haechi.Prelude.{
  ℕ, ◌+◌, Bool, true, false, not, ◌&&◌, ◌||◌, Option, none, some, List, [], ◌∷◌, ◌++◌, leb, ◌==◌,
  if◌then◌else◌, any, length, take, drop, map, Text, text_eq, utf16, Json, null, string, array,
  Items, end, item, Fields, stop, field, get, Result, ok, err, or_throw,
}
use haechi.Stream.{is_space, trim_start, trim_end, trim}
pub mod Tokens
pub mod Authenticate
pub mod Calls
pub mod Revoked
pub mod Accepts
mod Tests

abbrev pub token_domain : Text
token_domain = utf16 "haechi:auth:token:v1"

abbrev pub identity_domain : Text
identity_domain = utf16 "haechi:identity:hash:v1"

abbrev pub token_prefix : Text
token_prefix = utf16 "hae_"

abbrev pub default_allowed_label_keys : List Text
default_allowed_label_keys = utf16 "team" ∷ utf16 "env" ∷ utf16 "tier" ∷ utf16 "role" ∷ []

pub data AuthError : Type 0 where
  invalid_type : Text → AuthError
  invalid_scopes : AuthError
  label_not_allowed : Text → AuthError
  bad_label_value : Text → AuthError
  unknown_id : Text → AuthError
  empty_provider empty_subject empty_issuer : AuthError

pub record AuthToken : Type 0 where
  pub id : Text
  pub token_hash : Text
  pub type : Text
  pub scopes : Json
  pub labels : Fields
  pub created_at : Text
  pub disabled : Bool

pub record Identity : Type 0 where
  pub id : Text
  pub type : Text
  pub subject_hash : Text
  pub issuer_hash : Text
  pub provider : Text
  pub scopes : Json
  pub labels : Fields

-- `VALID_IDENTITY_TYPES.has(type)`
unfoldable pub is_identity_type : Text → Bool
unfolding text_eq
is_identity_type type =
    text_eq type (utf16 "user") || text_eq type (utf16 "service") || text_eq type (utf16 "agent")

abbrev pub is_nonempty : Text → Bool
is_nonempty s = leb 1 (length s)

unfoldable pub is_scope : Json → Bool
unfolding trim
is_scope (string s) = is_nonempty (trim s)
is_scope _ = false

unfoldable pub every_scope : Items → Bool
unfolding is_scope
every_scope end = true
every_scope (item v vs) = let rest = every_scope vs in is_scope v && rest

-- `Array.isArray(scopes) && scopes.every(...)`
unfoldable pub are_scopes : Json → Bool
unfolding every_scope
are_scopes (array vs) = every_scope vs
are_scopes _ = false

unfoldable pub is_label_value : Json → Bool
is_label_value (string s) = is_nonempty s && leb (length s) 64
is_label_value _ = false

-- The first error that `validateLabels` throws.
unfoldable pub label_error : List Text → Fields → Option AuthError
unfolding is_label_value text_eq
label_error allowed stop = none
label_error allowed (field k v fs) =
    let rest = label_error allowed fs in
    if not (any (text_eq k) allowed)
    then some (label_not_allowed k)
    else if not (is_label_value v)
    then some (bad_label_value k)
    else rest

-- The error of the checks that `addToken` and `buildExternalIdentity` share, the first one first.
unfoldable pub claims_error : List Text → Text → Json → Fields → Option AuthError
unfolding is_identity_type are_scopes label_error
claims_error allowed type scopes labels =
    if not (is_identity_type type)
    then some (invalid_type type)
    else if not (are_scopes scopes)
    then some invalid_scopes
    else label_error allowed labels

abbrev pub or_no_scopes : Json → Json
or_no_scopes null = array end
or_no_scopes scopes = scopes

pub record Claims : Type 0 where
  pub provider : Text
  pub subject : Text
  pub issuer : Text
  pub type : Text
  pub scopes : Json
  pub labels : Fields
  pub allowed_label_keys : List Text

pub record AuthRequest : Type 0 where
  pub headers : Option Fields

abbrev pub or_none : Option Json → Option Json
or_none (some null) = none
or_none o = o

abbrev pub first_present : Option Json → Option Json → Option Json
first_present (some v) o = some v
first_present none o = o

-- `request?.headers?.authorization ?? request?.headers?.Authorization`
unfoldable pub authorization_of : Option Fields → Option Json
unfolding get
authorization_of none = none
authorization_of (some fs) =
    first_present (or_none (get (utf16 "authorization") fs))
      (or_none (get (utf16 "Authorization") fs))

abbrev pub is_line_end : ℕ → Bool
is_line_end c = c == 10 || c == 13 || c == 8232 || c == 8233

abbrev pub lower : ℕ → ℕ
lower c = if leb b'A' c && leb c b'Z' then c + 32 else c

unfoldable pub credential : Text → Option Text
unfolding trim
credential [] = none
credential (c ∷ s) = if any is_line_end (c ∷ s) then none else some (trim (c ∷ s))

unfoldable pub after_bearer : Text → Option Text
unfolding credential trim_start is_space
after_bearer [] = none
after_bearer (c ∷ s) = if is_space c then credential (trim_start s) else none

-- `/^Bearer\s+(.+)$/i` on a trimmed text
unfoldable pub match_bearer : Text → Option Text
unfolding after_bearer text_eq
match_bearer s =
    if text_eq (map lower (take 6 s)) (utf16 "bearer") then after_bearer (drop 6 s) else none

unfoldable pub header_token : Option Json → Option Text
unfolding match_bearer trim
header_token (some (string s)) = match_bearer (trim s)
header_token _ = none

unfoldable pub bearer_token_from_request : AuthRequest → Option Text
unfolding header_token authorization_of
bearer_token_from_request request = header_token (authorization_of request.headers)

module _ (hmac : Text → Text → Text) where
  unfoldable pub build_identity : AuthToken → Identity
  build_identity r = record {
    id = r.id;
    type = r.type;
    subject_hash = hmac r.id identity_domain;
    issuer_hash = hmac (utf16 "bearer-local") identity_domain;
    provider = utf16 "bearer";
    scopes = or_no_scopes r.scopes;
    labels = r.labels;
  }

  abbrev pub claimed : Claims → Option AuthError → Result AuthError Identity
  claimed c (some e) = err e
  claimed c none = ok record {
    id = c.provider ++ (b':' ∷ take 16 (hmac c.subject identity_domain));
    type = c.type;
    subject_hash = hmac c.subject identity_domain;
    issuer_hash = hmac c.issuer identity_domain;
    provider = c.provider;
    scopes = c.scopes;
    labels = c.labels;
  }

  unfoldable pub build_external_identity : Claims → Result AuthError Identity
  unfolding claims_error
  build_external_identity c =
      if not (is_nonempty c.provider)
      then err empty_provider
      else if not (is_nonempty c.subject)
      then err empty_subject
      else if not (is_nonempty c.issuer)
      then err empty_issuer
      else claimed c (claims_error c.allowed_label_keys c.type c.scopes c.labels)
