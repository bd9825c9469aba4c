-- ===== src/Policy.antt =====
-- packages/policy/index.mjs: actions and their strengths, presets, validation, the merge that only
-- strengthens, `buildPolicy` and the engine's `decide`. An action is a text, as in the source, since
-- a configuration may hold any. Not modelled: `customRules`, which is carried along unread.
pub mod Actions
pub mod Merge
pub mod Chosen
pub mod Build
pub mod Decide
pub mod Profiles
pub mod Resolve
pub mod Inherit
mod Tests
use haechi.Policy.Actions.{
  Action, Flag, action_of, action_strength, allow, block, boolean, encrypt, ge_number, is_boolean,
  is_set, is_truthy, is_valid_action, lt_number, mask, other, redact, strength, tokenize,
}
use haechi.Prelude.{
  ℕ, ◌<◌, String, ◌≡◌, refl, Bool, true, false, not, ◌&&◌, ◌||◌, Option, none, some, List, [], ◌∷◌,
  str_eq, ltb, leb, if◌then◌else◌, is_some, or_default, Dict, lookup, insert, Result, ok, err,
  ◌>>=◌, ◌>>◌, or_throw,
}
use mathlib.Core.Option
use mathlib.Core.Logic.{dite}

pub data MergeSource : Type 0 where
  from_preset : String → MergeSource
  from_actions : MergeSource

pub data PolicyError : Type 0 where
  unknown_preset : String → PolicyError
  invalid_action : String → String → PolicyError
  weakens : String → MergeSource → String → String → PolicyError
  invalid_default_action : Option String → PolicyError
  invalid_mode : Option String → PolicyError
  overrides_not_boolean : PolicyError
  default_profile_not_declared : PolicyError
  unknown_profile : String → String → PolicyError
  profiles_without_binding : PolicyError
  unknown_privacy_profile : String → PolicyError

-- A compiled policy; `none` is null.
pub record Policy : Type 0 where
  pub mode : Option String
  pub default_action : Option String
  pub actions : Dict String
  pub allow_unsafe_overrides : Flag

-- The argument of `buildPolicy`; `none` is undefined, and in two fields `some none` is null.
pub record PolicySource : Type 0 where
  pub presets : Option (List String)
  pub mode : Option (Option String)
  pub default_action : Option (Option String)
  pub actions : Option (Dict String)
  pub allow_unsafe_overrides : Option Flag

pub record Preset : Type 0 where
  pub default_action : Option String
  pub actions : Dict String

-- `PRESETS`, less the field `transfer`, which nothing reads.
abbrev pub presets : Dict Preset
presets =
    (
      "llm-redact",
      record {
        default_action = some "redact";
        actions = ("email", "redact") ∷ ("phone", "mask") ∷ [];
      },
    )
    ∷ (
      "korean-pii",
      record {
        default_action = none;
        actions = ("kr_rrn", "block") ∷ ("phone", "mask") ∷ ("email", "redact") ∷ [];
      },
    )
    ∷ (
      "secrets-only",
      record { default_action = none; actions = ("api_key", "block") ∷ ("secret", "block") ∷ [] },
    )
    ∷ ("strict-block", record { default_action = some "block"; actions = [] })
    ∷ ("local-only", record { default_action = none; actions = [] })
    ∷ (
      "mcp-basic",
      record {
        default_action = some "redact";
        actions = ("api_key", "block") ∷ ("secret", "block") ∷ ("kr_rrn", "block") ∷ [];
      },
    )
    ∷ (
      "local-inference",
      record {
        default_action = some "redact";
        actions =
            ("email", "tokenize")
            ∷ ("phone", "mask")
            ∷ ("api_key", "block")
            ∷ ("secret", "block")
            ∷ ("kr_rrn", "block")
            ∷ [];
      },
    )
    ∷ []

-- `mergeAction` from its lookup of `target[type]` on.
unfoldable pub merge_existing :
    Dict String
    → String
    → String
    → MergeSource
    → Flag
    → Option String
    → Result PolicyError (Dict String)
merge_existing target type action source unsafe none = ok (insert type action target)
merge_existing target type action source unsafe (some existing) =
    if str_eq existing ""
    then ok (insert type action target)
    else if lt_number (strength action) (strength existing) && not (is_set unsafe)
    then err (weakens type source existing action)
    else if ge_number (strength action) (strength existing)
    then ok (insert type action target)
    else ok target

unfoldable pub merge_action :
    Dict String → String → String → MergeSource → Flag → Result PolicyError (Dict String)
unfolding merge_existing
merge_action target type action source unsafe =
    if is_valid_action action
    then merge_existing target type action source unsafe (lookup type target)
    else err (invalid_action type action)

-- The loop over `Object.entries` of one map of actions.
unfoldable pub merge_entries :
    MergeSource → Flag → Dict String → Dict String → Result PolicyError (Dict String)
merge_entries source unsafe [] target = ok target
merge_entries source unsafe ((type, action) ∷ rest) target = do
  next ← merge_action target type action source unsafe
  merge_entries source unsafe rest next

-- The loop over the presets, with `merged.defaultAction` and `merged.actions` as its state.
unfoldable pub merge_presets :
    Flag
    → List String
    → Option String
    → Dict String
    → Result PolicyError (Option String × Dict String)
merge_presets unsafe [] default target = ok (default, target)
merge_presets unsafe (name ∷ names) default target = do
  preset ← or_throw (lookup name presets) (unknown_preset name)
  next ← merge_entries (from_preset name) unsafe preset.actions target
  merge_presets unsafe names
      (if is_truthy preset.default_action then preset.default_action else default) next

abbrev pub check : Bool → PolicyError → Result PolicyError (Unit {0})
check true e = ok tt
check false e = err e

unfoldable pub validate_actions : Dict String → Result PolicyError (Unit {0})
validate_actions [] = ok tt
validate_actions ((type, action) ∷ rest) =
    check (is_valid_action action) (invalid_action type action) >> validate_actions rest

abbrev pub is_valid_mode : Option String → Bool
is_valid_mode none = false
is_valid_mode (some s) = str_eq s "dry-run" || str_eq s "report-only" || str_eq s "enforce"

abbrev pub is_valid_default : Option String → Bool
is_valid_default none = false
is_valid_default (some s) = is_valid_action s

unfoldable pub validate_policy : Policy → Result PolicyError (Unit {0})
unfolding validate_actions
validate_policy p = do
  check (not (is_truthy p.default_action) || is_valid_default p.default_action)
      (invalid_default_action p.default_action)
  validate_actions p.actions
  check (not (is_truthy p.mode) || is_valid_mode p.mode) (invalid_mode p.mode)
  check (is_boolean p.allow_unsafe_overrides) overrides_not_boolean

-- `validatePolicy(merged); return merged;`
unfoldable pub validated : Policy → Result PolicyError Policy
unfolding validate_policy
validated p = do validate_policy p; ok p

-- `if (!merged.actions.injection) merged.actions.injection = "allow"`
unfoldable pub default_injection : Dict String → Dict String
default_injection actions =
    if is_truthy (lookup "injection" actions) then actions else insert "injection" "allow" actions

-- The object `merged` when both loops are done.
abbrev pub merged_policy : PolicySource → Option String → Dict String → Policy
merged_policy src default actions = record {
  mode = or_default src.mode (some "dry-run");
  default_action = default;
  actions = default_injection actions;
  allow_unsafe_overrides = or_default src.allow_unsafe_overrides (boolean false);
}

unfoldable pub build_policy : PolicySource → Result PolicyError Policy
unfolding merge_entries merge_presets validated default_injection
build_policy src = do
  let unsafe = or_default src.allow_unsafe_overrides (boolean false)
  merged ←
      merge_presets unsafe (or_default src.presets [])
        (or_default src.default_action (some "redact")) []
  actions ← merge_entries from_actions unsafe (or_default src.actions []) merged.1
  validated (merged_policy src merged.0 actions)

-- The part of a detection that `decide` reads, and its answer.
pub record Decision : Type 0 where
  pub action : String
  pub rule_id : String
  pub mode : String

-- `a ?? b ?? c`, the last a text.
abbrev pub first_of_two : Option String → Option String → String → String
first_of_two a b c = or_default a (or_default b c)

-- The engine's `decide`; the reason is `matched:` and the rule's id.
unfoldable pub decide : Policy → String → String → Option String → Decision
decide p type rule_id mode = record {
  action = first_of_two (lookup type p.actions) p.default_action "redact";
  rule_id = rule_id;
  mode = first_of_two mode p.mode "dry-run";
}
