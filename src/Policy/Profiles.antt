-- ===== src/Policy/Profiles.antt =====
-- `createPolicyProfiles`: the base policy, one engine for each named profile, and `resolve`. A limit
-- on models is a list of names, a rate its requests per minute; `none` is absent or null. The
-- override of a profile states the fields that it has, as JSON does: null is stated by a text alone.
use haechi.Prelude.{
  ℕ, String, Bool, true, false, not, any, Option, none, some, List, [], ◌∷◌, str_eq, if◌then◌else◌,
  is_some, or_default, Dict, lookup, spread, Result, ok, err, ◌>>=◌, ◌>>◌,
}
use Prim.Native.String
use haechi.Policy.Actions.{is_truthy}
use haechi.Policy.{
  Policy, PolicySource, PolicyError, build_policy, validated, check, unknown_profile,
  default_profile_not_declared, profiles_without_binding,
}

-- What the base configuration and a profile may state.
pub record Override : Type 0 where
  pub source : PolicySource
  pub model_allowlist : Option (List String)
  pub rate : Option ℕ

pub record Binding : Type 0 where
  pub default : Option String
  pub by_scope : Option (Dict String)
  pub by_label : Dict String

pub record PolicyConfig : Type 0 where
  pub base : Override
  pub profiles : Dict Override
  pub profile_binding : Option Binding

-- A compiled profile: the policy that its engine decides by, and its limits.
pub record Engine : Type 0 where
  pub policy : Policy
  pub model_allowlist : Option (List String)
  pub rate : Option ℕ

abbrev pub stated {ℓ} : {A : Type ℓ} → Option A → Option A → Option A
stated none base = base
stated (some a) base = some a

-- `{ ...baseSource, ...override, actions: { ...base.actions, ...override.actions }, … }`
unfoldable pub merge_override : Override → Override → Override
merge_override base over = record {
  source = record {
    presets = stated over.source.presets base.source.presets;
    mode = stated over.source.mode base.source.mode;
    default_action = stated over.source.default_action base.source.default_action;
    actions = some (spread (or_default base.source.actions []) (or_default over.source.actions []));
    allow_unsafe_overrides =
        stated over.source.allow_unsafe_overrides base.source.allow_unsafe_overrides;
  };
  model_allowlist = stated over.model_allowlist base.model_allowlist;
  rate = stated over.rate base.rate;
}

-- The caller's `transform`, such as `applyPrivacyProfile`; the identity where there is none.
abbrev pub Transform : Type 0
Transform = PolicySource → Result PolicyError PolicySource

-- `createPolicyEngine(buildPolicy(apply(source)))`
unfoldable pub compile_source : Transform → PolicySource → Result PolicyError Policy
compile_source transform source = do
  applied ← transform source
  p ← build_policy applied
  validated p

unfoldable pub compile_engine : Transform → Override → Result PolicyError Engine
unfolding compile_source
compile_engine transform o = do
  p ← compile_source transform o.source
  ok (record { policy = p; model_allowlist = o.model_allowlist; rate = o.rate })

-- The loop over `profileNames`.
unfoldable pub compile_profiles :
    Transform → Override → Dict Override → Result PolicyError (Dict Engine)
unfolding compile_engine merge_override
compile_profiles transform base [] = ok []
compile_profiles transform base ((name, over) ∷ rest) = do
  engine ← compile_engine transform (merge_override base over)
  engines ← compile_profiles transform base rest
  ok ((name, engine) ∷ engines)

-- The inner loop of the check of a binding: each target is a declared profile.
unfoldable pub check_targets : Dict Engine → Dict String → Result PolicyError (Unit {0})
check_targets engines [] = ok tt
check_targets engines ((key, target) ∷ rest) =
    check (is_some (lookup target engines)) (unknown_profile key target)
    >> check_targets engines rest

abbrev pub is_declared : Dict Engine → Option String → Bool
is_declared engines none = false
is_declared engines (some name) = if str_eq name "" then false else is_some (lookup name engines)

unfoldable pub check_binding :
    Dict Engine → Option Binding → Dict Override → Result PolicyError (Unit {0})
unfolding check_targets
check_binding engines (some b) profiles = do
  check (is_declared engines b.default) default_profile_not_declared
  check_targets engines (or_default b.by_scope [])
  check_targets engines b.by_label
check_binding engines none [] = ok tt
check_binding engines none (_ ∷ _) = err profiles_without_binding

pub record Profiles : Type 0 where
  pub base : Engine
  pub engines : Dict Engine
  pub binding : Option Binding

unfoldable pub create_policy_profiles : Transform → PolicyConfig → Result PolicyError Profiles
unfolding compile_engine compile_profiles check_binding
create_policy_profiles transform config = do
  base ← compile_engine transform config.base
  engines ← compile_profiles transform config.base config.profiles
  check_binding engines config.profile_binding config.profiles
  ok (record { base = base; engines = engines; binding = config.profile_binding })

-- The part of an identity that `resolve` reads.
pub record Identity : Type 0 where
  pub scopes : List String
  pub labels : Dict String

-- The names of Object.prototype, which every object inherits a truthy value for.
abbrev pub is_prototype_name : String → Bool
is_prototype_name s = any (str_eq s) (
    "constructor" ∷ "hasOwnProperty" ∷ "isPrototypeOf" ∷ "propertyIsEnumerable" ∷ "toString"
    ∷ "valueOf" ∷ "toLocaleString" ∷ "__proto__" ∷ "__defineGetter__" ∷ "__defineSetter__"
    ∷ "__lookupGetter__" ∷ "__lookupSetter__" ∷ [])

-- What a binding gives for a profile: a name, or a function or object of the prototype.
pub data Target : Type 0 where
  named : String → Target
  inherited : Target

abbrev pub own_or_inherited : String → Option String → Option Target
own_or_inherited key (some name) = some (named name)
own_or_inherited key none = if is_prototype_name key then some inherited else none

-- `byScope?.[scope]`
abbrev pub read_scope : Option (Dict String) → String → Option Target
read_scope none scope = none
read_scope (some targets) scope = own_or_inherited scope (lookup scope targets)

abbrev pub is_truthy_target : Option Target → Bool
is_truthy_target none = false
is_truthy_target (some (named name)) = not (str_eq name "")
is_truthy_target (some inherited) = true

unfoldable pub scope_target : Binding → List String → Option Target
scope_target b [] = none
scope_target b (scope ∷ rest) =
    let later = scope_target b rest in
    if is_truthy_target (read_scope b.by_scope scope) then read_scope b.by_scope scope else later

-- The key of a label, `${key}=${value}`; its sign is in no name of the prototype.
abbrev pub label_key : String → String → String
label_key key value = String.◌++◌ key (String.◌++◌ "=" value)

abbrev pub label_target : Binding → Dict String → Option String
label_target b [] = none
label_target b ((key, value) ∷ rest) =
    if is_truthy (lookup (label_key key value) b.by_label)
    then lookup (label_key key value) b.by_label
    else label_target b rest

abbrev pub name_of : Option String → Option Target
name_of none = none
name_of (some name) = some (named name)

unfoldable pub target_of : Binding → Option Identity → Option Target
unfolding scope_target
target_of b none = name_of b.default
target_of b (some i) =
    stated (scope_target b i.scopes) (name_of (stated (label_target b i.labels) b.default))

-- The profile, and its engine: undefined if no engine has the name.
pub record Resolved : Type 0 where
  pub profile : Option Target
  pub engine : Option Engine

abbrev pub engine_of : Dict Engine → Option Target → Option Engine
engine_of engines (some (named name)) = lookup name engines
engine_of engines _ = none

unfoldable pub resolve_binding : Profiles → Option Binding → Option Identity → Resolved
unfolding target_of
resolve_binding ps none identity = record { profile = none; engine = some ps.base }
resolve_binding ps (some b) identity = record {
  profile = target_of b identity;
  engine = engine_of ps.engines (target_of b identity);
}

unfoldable pub resolve : Profiles → Option Identity → Resolved
unfolding resolve_binding
resolve ps identity = resolve_binding ps ps.binding identity
