-- ===== src/Policy/Resolve.antt =====
-- What `resolve` selects, and what a profile is compiled to.
use haechi.Prelude.{
  String, ◌≡◌, refl, ap, ◌∙◌, ◌⊎◌, inl, inr, eq_iff, or_default, if◌then◌else◌, Bool, true, false,
  Option, none, some, List, [], ◌∷◌, ◌++◌, arith, str_eq, Bool-cases, Option-cases, is_some, All,
  Dict, lookup, ok, >>=-eq-ok,
}
use haechi.Policy.Actions.{is_truthy}
use haechi.Policy.{PolicyError, check}
use haechi.Policy.Profiles.{
  Override, Binding, PolicyConfig, Engine, Profiles, Transform, Identity, Resolved, stated,
  compile_engine, compile_profiles, check_targets, is_declared, check_binding,
  create_policy_profiles, scope_target, label_target, label_key, target_of, resolve_binding,
  resolve, is_prototype_name, Target, named, inherited, own_or_inherited, read_scope,
  is_truthy_target, name_of, engine_of,
}

check-true : (b : Bool) (e : PolicyError) {u : Unit {0}} → check b e ≡ ok u → b ≡ true
check-true true e h = refl
check-true false e h = cc

-- Every target of a checked map is a declared engine.
abbrev Declared : Dict Engine → Option String → Type 0
Declared engines none = Unit
Declared engines (some name) = is_some (lookup name engines) ≡ true

check_targets-Declared :
    (engines : Dict Engine) (targets : Dict String) (key : String) {u : Unit {0}}
    → check_targets engines targets ≡ ok u
    → Declared engines (lookup key targets)
unfolding check_targets lookup
check_targets-Declared engines [] key h = tt
check_targets-Declared engines ((j, target) ∷ rest) key h =
    let (u, first, later) = >>=-eq-ok (check (is_some (lookup target engines)) _) _ h in
    elim (Bool-cases (str_eq j key)) [
      | inl e ↦ rw e (check-true _ _ first)
      | inr e ↦ rw e (check_targets-Declared engines rest key later)
    ]

-- A binding all of whose targets are declared engines, the default among them.
record IsChecked (engines : Dict Engine) (b : Binding) : Type 0 where
  default : is_declared engines b.default ≡ true
  by_scope : (key : String) → Declared engines (lookup key (or_default b.by_scope []))
  by_label : (key : String) → Declared engines (lookup key b.by_label)

check_binding-IsChecked :
    (engines : Dict Engine) (b : Binding) (profiles : Dict Override) {u : Unit {0}}
    → check_binding engines (some b) profiles ≡ ok u
    → IsChecked engines b
unfolding check_binding
check_binding-IsChecked engines b profiles h =
    let (_, e₁, h₁) = >>=-eq-ok (check (is_declared engines b.default) _) _ h in
    let (_, e₂, h₂) = >>=-eq-ok (check_targets engines (or_default b.by_scope [])) _ h₁ in
    record {
      default = check-true _ _ e₁;
      by_scope = λ key. check_targets-Declared engines (or_default b.by_scope []) key e₂;
      by_label = λ key. check_targets-Declared engines b.by_label key h₂;
    }

-- A scope that a binding says nothing of, and one for which it answers with what it inherits.
abbrev pub IsMissed : Dict String → String → Type 0
IsMissed targets s =
    ((lookup s targets ≡ none) × (is_prototype_name s ≡ false)) ⊎ (lookup s targets ≡ some "")

abbrev pub IsInherited : Dict String → String → Type 0
IsInherited targets s = (lookup s targets ≡ none) × (is_prototype_name s ≡ true)

-- The first scope that a binding says something of is a name that it inherits.
abbrev pub Inherits : Option (Dict String) → List String → Type 0
Inherits none scopes = ⊥
Inherits (some targets) scopes =
    (before : List String) × (scope : String) × (after : List String) × (scopes
      ≡ before ++ scope ∷ after)
    × All (IsMissed targets) before
    × IsInherited targets scope

Inherits-later :
    (targets : Dict String) (s : String) (scopes : List String)
    → IsMissed targets s
    → Inherits (some targets) scopes
    → Inherits (some targets) (s ∷ scopes)
Inherits-later targets s scopes m (before, scope, after, e, all, i) =
    (s ∷ before, scope, after, ap (λ x. s ∷ x) e, (m, all), i)

-- What the scopes lead to: nothing, a declared engine's name, or the prototype.
Leads : Dict Engine → Option (Dict String) → List String → Option Target → Type 0
Leads engines targets scopes none = Unit
Leads engines targets scopes (some (named name)) = is_some (lookup name engines) ≡ true
Leads engines targets scopes (some inherited) = Inherits targets scopes

Leads-later :
    (engines : Dict Engine) (targets : Dict String) (s : String) (scopes : List String)
    (o : Option Target)
    → IsMissed targets s
    → Leads engines (some targets) scopes o
    → Leads engines (some targets) (s ∷ scopes) o
unfolding Leads
Leads-later engines targets s scopes none m h = tt
Leads-later engines targets s scopes (some (named name)) m h = h
Leads-later engines targets s scopes (some inherited) m h = Inherits-later targets s scopes m h

-- One scope of a binding, by what it has for it.
scope-Leads :
    (engines : Dict Engine) (targets : Dict String) (s : String) (scopes : List String)
    (o : Option String) (later : Option Target)
    → lookup s targets ≡ o
    → Declared engines o
    → Leads engines (some targets) scopes later
    → Leads engines
        (some targets)
        (s ∷ scopes)
        (if is_truthy_target (own_or_inherited s o) then own_or_inherited s o else later)
unfolding Leads
scope-Leads engines targets s scopes none later e d h = elim (Bool-cases (is_prototype_name s)) [
  | inl y ↦ rw y ([], s, scopes, refl, tt, (e, y))
  | inr n ↦ rw n (Leads-later engines targets s scopes later (inl (e, n)) h)
]
scope-Leads engines targets s scopes (some name) later e d h = elim (Bool-cases (str_eq name "")) [
  | inl y ↦
      rw y (Leads-later engines targets s scopes later (inr (e ∙ ap some ((eq_iff name "").0 y))) h)
  | inr n ↦ rw n d
]

scope_target-Leads :
    (engines : Dict Engine) (b : Binding) (targets : Option (Dict String)) (scopes : List String)
    → b.by_scope ≡ targets
    → ((key : String) → Declared engines (lookup key (or_default targets [])))
    → Leads engines targets scopes (scope_target b scopes)
unfolding scope_target Leads
scope_target-Leads engines b targets [] e c = tt
scope_target-Leads engines b none (s ∷ rest) e c = rw e (scope_target-Leads engines b none rest e c)
scope_target-Leads engines b (some targets) (s ∷ rest) e c = rw e (
    scope-Leads engines targets s rest (lookup s targets) (scope_target b rest) refl (c s)
      (scope_target-Leads engines b (some targets) rest e c))

module _ {engines : Dict Engine} {b : Binding} (c : IsChecked engines b) where
  label_target-Declared : (labels : Dict String) → Declared engines (label_target b labels)
  label_target-Declared [] = tt
  label_target-Declared ((k, v) ∷ rest) =
      elim (Bool-cases (is_truthy (lookup (label_key k v) b.by_label))) [
        | inl e ↦ rw e (c.by_label (label_key k v))
        | inr e ↦ rw e (label_target-Declared rest)
      ]

abbrev IsUsed : Dict Engine → Option String → Type 0
IsUsed engines o = (name : String) × (e : Engine) × (o ≡ some name) × (lookup name engines ≡ some e)

declared-IsUsed :
    (engines : Dict Engine) (d : Option String) → is_declared engines d ≡ true → IsUsed engines d
declared-IsUsed engines none h = cc
declared-IsUsed engines (some name) h = elim (Bool-cases (str_eq name "")) [
  | inl e ↦ let n : false ≡ true = rw e at h in cc
  | inr e ↦
      let there : is_some (lookup name engines) ≡ true = rw e at h in
      elim (Option-cases (lookup name engines)) [
        | inl missing ↦ let n : false ≡ true = rw missing at there in cc
        | inr (x, found) ↦ (name, x, refl, found)
      ]
]

stated-IsUsed :
    (engines : Dict Engine) (o d : Option String)
    → Declared engines o
    → IsUsed engines d
    → IsUsed engines (stated o d)
stated-IsUsed engines none d h u = u
stated-IsUsed engines (some name) d h u = elim (Option-cases (lookup name engines)) [
  | inl e ↦ let n : false ≡ true = rw e at h in cc
  | inr (x, e) ↦ (name, x, refl, e)
]

abbrev pub scopes_of : Option Identity → List String
scopes_of none = []
scopes_of (some i) = i.scopes

-- A declared engine under its name, or the prototype's value and no engine.
abbrev pub Finds : Dict Engine → Binding → Option Identity → Option Target → Option Engine → Type 0
Finds engines b identity profile engine =
    ((name : String) × (e : Engine) × (profile ≡ some (named name))
      × (engine ≡ some e)
      × (lookup name engines ≡ some e))
    ⊎ (Inherits b.by_scope (scopes_of identity) × (profile ≡ some inherited) × (engine ≡ none))

used-Finds :
    (engines : Dict Engine) (b : Binding) (identity : Option Identity) (o : Option String)
    → IsUsed engines o
    → Finds engines b identity (name_of o) (engine_of engines (name_of o))
used-Finds engines b identity o (name, e, is, found) = rw is (inl (name, e, refl, found, found))

scoped-Finds :
    (engines : Dict Engine) (b : Binding) (i : Identity) (o : Option Target) (d : Option String)
    → Leads engines b.by_scope i.scopes o
    → IsUsed engines d
    → Finds engines b (some i) (stated o (name_of d)) (engine_of engines (stated o (name_of d)))
unfolding Leads
scoped-Finds engines b i none d h u = used-Finds engines b (some i) d u
scoped-Finds engines b i (some (named name)) d h u =
    used-Finds engines b (some i) (some name) (stated-IsUsed engines (some name) d h u)
scoped-Finds engines b i (some inherited) d h u = inr (h, refl, refl)

target_of-Finds :
    {engines : Dict Engine} {b : Binding} (identity : Option Identity)
    → IsChecked engines b
    → Finds engines b identity (target_of b identity) (engine_of engines (target_of b identity))
unfolding target_of
target_of-Finds {engines} {b} none c =
    used-Finds engines b none b.default (declared-IsUsed engines b.default c.default)
target_of-Finds {engines} {b} (some i) c =
    scoped-Finds engines b i (scope_target b i.scopes) (stated (label_target b i.labels) b.default)
      (scope_target-Leads engines b b.by_scope i.scopes refl c.by_scope)
      (stated-IsUsed engines (label_target b i.labels) b.default (label_target-Declared c i.labels)
        (declared-IsUsed engines b.default c.default))

-- The parts of a creation that succeeds.
record Created (transform : Transform) (config : PolicyConfig) (ps : Profiles) : Type 0 where
  base : compile_engine transform config.base ≡ ok ps.base
  engines : compile_profiles transform config.base config.profiles ≡ ok ps.engines
  binding : ps.binding ≡ config.profile_binding
  checked : check_binding ps.engines config.profile_binding config.profiles ≡ ok tt

create-Created :
    (transform : Transform) (config : PolicyConfig) {ps : Profiles}
    → create_policy_profiles transform config ≡ ok ps
    → Created transform config ps
unfolding create_policy_profiles
create-Created transform config {ps} h =
    let (base, e₁, h₁) = >>=-eq-ok (compile_engine transform config.base) _ h in
    let (engines, e₂, h₂) =
      >>=-eq-ok (compile_profiles transform config.base config.profiles) _ h₁ in
    let (u, e₃, h₃) =
      >>=-eq-ok (check_binding engines config.profile_binding config.profiles)
        (λ _. ok (record { base = base; engines = engines; binding = config.profile_binding }))
        h₂ in
    record {
      base = ground arith;
      engines = ground arith;
      binding = ground arith;
      checked = ground arith;
    }

-- What `resolve` answers: the base engine under no profile where there is no binding, and
-- otherwise what the binding finds.
abbrev pub Resolves : Profiles → Option Binding → Option Identity → Resolved → Type 0
Resolves ps none identity r = (r.profile ≡ none) × (r.engine ≡ some ps.base)
Resolves ps (some b) identity r = Finds ps.engines b identity r.profile r.engine

resolve_binding-Resolves :
    (ps : Profiles) (binding : Option Binding) (profiles : Dict Override)
    (identity : Option Identity)
    → check_binding ps.engines binding profiles ≡ ok tt
    → Resolves ps binding identity (resolve_binding ps binding identity)
unfolding resolve_binding
resolve_binding-Resolves ps none profiles identity h = (refl, refl)
resolve_binding-Resolves ps (some b) profiles identity h =
    target_of-Finds identity (check_binding-IsChecked ps.engines b profiles h)

-- Once the profiles are created, `resolve` answers an identity with the base engine where there is no
-- binding, and under a binding with a declared profile's engine under its name, with one exception: if
-- the first scope that the binding's object of scopes answers for is a name of Object.prototype that it
-- does not have itself, the profile is what the object inherits and there is no engine.
pub resolve-Resolves :
    (transform : Transform) (config : PolicyConfig) (ps : Profiles) (identity : Option Identity)
    → create_policy_profiles transform config ≡ ok ps
    → Resolves ps config.profile_binding identity (resolve ps identity)
unfolding resolve
resolve-Resolves transform config ps identity h =
    let c = create-Created transform config h in
    rw c.binding
      (resolve_binding-Resolves ps config.profile_binding config.profiles identity c.checked)

scope_target-append :
    (b : Binding) (targets : Dict String) (before : List String) (scope name : String)
    (after : List String)
    → b.by_scope ≡ some targets
    → All (λ s. is_truthy_target (read_scope (some targets) s) ≡ false) before
    → lookup scope targets ≡ some name
    → str_eq name "" ≡ false
    → scope_target b (before ++ scope ∷ after) ≡ some (named name)
unfolding scope_target
scope_target-append b targets [] scope name after there skip found filled =
    rw there (rw found (rw filled refl))
scope_target-append b targets (s ∷ before) scope name after there skip found filled =
    rw there
      (rw skip.0 (scope_target-append b targets before scope name after there skip.1 found filled))

-- The first scope of an identity that the binding maps decides the profile, whatever scopes come
-- after it and whatever labels the identity has.
pub resolve-scope :
    (ps : Profiles) (b : Binding) (targets : Dict String) (before after : List String)
    (scope name : String) (labels : Dict String)
    → ps.binding ≡ some b
    → b.by_scope ≡ some targets
    → All (λ s. is_truthy_target (read_scope (some targets) s) ≡ false) before
    → lookup scope targets ≡ some name
    → str_eq name "" ≡ false
    → (resolve ps (some (record { scopes = before ++ scope ∷ after; labels = labels }))).profile
      ≡ some (named name)
unfolding resolve resolve_binding target_of
resolve-scope ps b targets before after scope name labels bound there skip found filled =
    rw (bound, resolve_binding, target_of)
      (rw (scope_target-append b targets before scope name after there skip found filled) refl)
