-- ===== src/Policy/Actions.antt =====
-- packages/policy/index.mjs: the actions with their strengths, and the values of a configuration that may
-- be anything.
use haechi.Prelude.{
  ℕ, String, Bool, true, false, not, Option, none, some, str_eq, ltb, leb, if◌then◌else◌, is_some,
}
use mathlib.Core.Option

pub data Action : Type 0 where
  allow redact mask tokenize encrypt block : Action

-- The actions that `VALID_ACTIONS` holds.
unfoldable pub action_of : String → Option Action
action_of s =
    if str_eq s "allow"
    then some allow
    else if str_eq s "redact"
    then some redact
    else if str_eq s "mask"
    then some mask
    else if str_eq s "tokenize"
    then some tokenize
    else if str_eq s "encrypt"
    then some encrypt
    else if str_eq s "block"
    then some block
    else none

abbrev pub is_valid_action : String → Bool
is_valid_action s = is_some (action_of s)

abbrev pub action_strength : Action → ℕ
action_strength allow = 0
action_strength redact = 1
action_strength mask = 1
action_strength tokenize = 2
action_strength encrypt = 2
action_strength block = 3

-- `ACTION_STRENGTH[s]`, undefined for a text that is no action.
abbrev pub strength : String → Option ℕ
strength s = Option.map action_strength (action_of s)

-- JavaScript's `<`, `>=` and `>` on numbers that may be undefined: then they are false.
abbrev pub lt_number : Option ℕ → Option ℕ → Bool
lt_number (some a) (some b) = ltb a b
lt_number none _ = false
lt_number (some a) none = false

abbrev pub ge_number : Option ℕ → Option ℕ → Bool
ge_number (some a) (some b) = leb b a
ge_number none _ = false
ge_number (some a) none = false

-- A configured flag: a Boolean, or something else of which only its truth value matters.
pub data Flag : Type 0 where
  boolean : Bool → Flag
  other : Bool → Flag

abbrev pub is_set : Flag → Bool
is_set (boolean b) = b
is_set (other b) = b

abbrev pub is_boolean : Flag → Bool
is_boolean (boolean b) = true
is_boolean (other b) = false

-- Whether a text that may be null is truthy.
abbrev pub is_truthy : Option String → Bool
is_truthy none = false
is_truthy (some s) = not (str_eq s "")
