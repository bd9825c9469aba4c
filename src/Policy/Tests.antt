-- ===== src/Policy/Tests.antt =====
-- Runs of the policy engine, and the theorems about it at concrete configurations.
use haechi.Prelude.{
  max, String, ◌≡◌, refl, true, false, none, some, List, [], ◌∷◌, ◌⊎◌, Dict, lookup, insert, spread,
  ok, err,
}
use haechi.Policy.Actions.{Flag, boolean, action_of, is_valid_action}
use haechi.Policy.{Policy, PolicySource, weakens, from_actions, build_policy, decide, merge_action}
use haechi.Policy.Merge.{rank, strength_at, demand}
use haechi.Policy.Build.{demand_presets, build_policy-strongest}
use haechi.Policy.Decide.{decide-valid, decide-configured}
use haechi.Policy.Profiles.{
  Override, Binding, PolicyConfig, Engine, Profiles, merge_override, compile_engine,
  create_policy_profiles, resolve, Identity, named, inherited,
}
use haechi.Policy.Chosen.{strongest, strongest_preset, or_allow}
use haechi.Policy.Resolve.{Resolves, resolve-Resolves}
use haechi.Policy.Inherit.{profile-strength}

abbrev stating : List String → Dict String → Flag → PolicySource
stating presets actions unsafe = record {
  presets = some presets;
  mode = none;
  default_action = none;
  actions = some actions;
  allow_unsafe_overrides = some unsafe;
}

abbrev compiled : List String → Dict String → Flag → Policy
compiled presets actions unsafe = record {
  mode = some "dry-run";
  default_action = some "redact";
  actions = actions;
  allow_unsafe_overrides = unsafe;
}

-- A preset that blocks resident numbers and a configured email action.
abbrev korean : PolicySource
korean = stating ("korean-pii" ∷ []) (("email", "block") ∷ []) (boolean false)

abbrev korean_policy : Policy
korean_policy =
    compiled []
      (("kr_rrn", "block") ∷ ("phone", "mask") ∷ ("email", "block") ∷ ("injection", "allow") ∷ [])
      (boolean false)

korean_builds : build_policy korean ≡ ok korean_policy
unfolding build_policy merge_action action_of lookup insert
korean_builds = refl

-- An override that would weaken a preset is refused, and with the flag it changes nothing.
weakening_refused :
    build_policy (stating ("korean-pii" ∷ []) (("kr_rrn", "allow") ∷ []) (boolean false))
    ≡ err (weakens "kr_rrn" from_actions "block" "allow")
unfolding build_policy merge_action action_of lookup insert
weakening_refused = refl

abbrev overriding : PolicySource
overriding = stating ("korean-pii" ∷ []) (("kr_rrn", "allow") ∷ []) (boolean true)

abbrev overriding_policy : Policy
overriding_policy =
    compiled []
      (("kr_rrn", "block") ∷ ("phone", "mask") ∷ ("email", "redact") ∷ ("injection", "allow") ∷ [])
      (boolean true)

overriding_builds : build_policy overriding ≡ ok overriding_policy
unfolding build_policy merge_action action_of lookup insert
overriding_builds = refl

build_policy-strongest_example :
    (lookup "kr_rrn" overriding_policy.actions
      ≡ or_allow "kr_rrn" (
          strongest "kr_rrn"
            (strongest_preset "kr_rrn" none ("korean-pii" ∷ []))
            (("kr_rrn", "allow") ∷ [])))
    × (strength_at "kr_rrn" overriding_policy.actions
        ≡ max
            (demand_presets "kr_rrn" ("korean-pii" ∷ []))
            (demand "kr_rrn" (("kr_rrn", "allow") ∷ [])))
build_policy-strongest_example = build_policy-strongest overriding "kr_rrn" overriding_builds

decide-valid_example :
    (is_valid_action (decide korean_policy "card" "card-luhn" none).action ≡ true)
    ⊎ ((korean_policy.default_action ≡ some "")
        × (lookup "card" korean_policy.actions ≡ none)
        × ((decide korean_policy "card" "card-luhn" none).action ≡ ""))
decide-valid_example = decide-valid korean korean_policy "card" "card-luhn" none korean_builds

decide-configured_example : (decide korean_policy "email" "email-basic" none).action ≡ "block"
unfolding lookup
decide-configured_example =
    decide-configured korean korean_policy "email" "block" "email-basic" none korean_builds refl
      (refl, tt) refl

abbrev plain : PolicySource → Override
plain s = record { source = s; model_allowlist = none; rate = none }

abbrev team_binding : Binding
team_binding = record {
  default = some "team";
  by_scope = some (("admin", "team") ∷ []);
  by_label = [];
}

abbrev blocking : Override
blocking = plain (stating [] (("email", "block") ∷ []) (boolean false))

abbrev allowing : Override
allowing = plain (stating [] (("email", "allow") ∷ []) (boolean false))

abbrev teams : PolicyConfig
teams = record {
  base = blocking;
  profiles = ("team", allowing) ∷ [];
  profile_binding = some team_binding;
}

abbrev engine_with : Dict String → Engine
engine_with actions = record {
  policy = compiled [] actions (boolean false);
  model_allowlist = none;
  rate = none;
}

abbrev team_engine : Engine
team_engine = engine_with (("email", "allow") ∷ ("injection", "allow") ∷ [])

abbrev team_profiles : Profiles
team_profiles = record {
  base = engine_with (("email", "block") ∷ ("injection", "allow") ∷ []);
  engines = ("team", team_engine) ∷ [];
  binding = some team_binding;
}

teams_created : create_policy_profiles ok teams ≡ ok team_profiles
unfolding create_policy_profiles build_policy merge_action action_of lookup insert spread
teams_created = refl

abbrev odd : Identity
odd = record { scopes = "chat" ∷ "constructor" ∷ "admin" ∷ []; labels = [] }

resolves_admin :
    resolve team_profiles (some (record { scopes = "chat" ∷ "admin" ∷ []; labels = [] }))
    ≡ record { profile = some (named "team"); engine = some team_engine }
unfolding resolve lookup
resolves_admin = refl

-- A scope called "constructor" leaves a request without its profile's engine.
escapes : resolve team_profiles (some odd) ≡ record { profile = some inherited; engine = none }
unfolding resolve lookup
escapes = refl

resolve-Resolves_example :
    Resolves team_profiles (some team_binding) (some odd) (resolve team_profiles (some odd))
resolve-Resolves_example = resolve-Resolves ok teams team_profiles (some odd) teams_created

team_compiled : compile_engine ok (merge_override blocking allowing) ≡ ok team_engine
unfolding compile_engine merge_override build_policy merge_action action_of lookup insert spread
team_compiled = refl

profile-strength_example : strength_at "email" team_engine.policy.actions ≡ max 0 (rank "allow")
unfolding lookup demand_presets
profile-strength_example =
    profile-strength blocking allowing team_engine "email" "allow" team_compiled (refl, tt)
      (refl, tt) refl
