-- ===== src/Policy/Build.antt =====
-- What `buildPolicy` compiles a source to, and what `decide` answers under the result.
use haechi.Prelude.{
  ℕ, max, String, ◌≡◌, refl, ◌⊎◌, inl, inr, true, false, Option, none, some, List, [], ◌∷◌, arith,
  str_eq, eq_iff, Bool-cases, Option-cases, or_default, Dict, lookup, insert, ok, >>=-eq-ok,
  or_throw, subst, ap, sym, ◌∙◌,
}
use haechi.Policy.Actions.{Flag, boolean, action_of}
use haechi.Policy.{
  Policy, PolicySource, Preset, presets, unknown_preset, from_preset, from_actions, merge_entries,
  merge_presets, merged_policy, validated, default_injection, build_policy, validate_policy,
}
use haechi.Policy.Chosen.{
  strongest, strongest_preset, or_allow, merge_entries-strongest, merge_presets-strongest,
  default_injection-or_allow,
}
use haechi.Policy.Merge.{
  strength_at, HoldsActions, insert-HoldsActions, lookup-HoldsActions, demand, Raises,
  merge_entries-Raises, strength_at-insert, valid-ne-empty,
}

abbrev pub preset_demand : String → Option Preset → ℕ
preset_demand k none = 0
preset_demand k (some p) = demand k p.actions

-- The strength that the selected presets demand for a type.
unfoldable pub demand_presets : String → List String → ℕ
demand_presets k [] = 0
demand_presets k (name ∷ names) =
    max (preset_demand k (lookup name presets)) (demand_presets k names)

or_throw-eq-ok {ℓ} :
    {E : Type 0} {A : Type ℓ} (o : Option A) (e : E) {a : A} → or_throw o e ≡ ok a → o ≡ some a
or_throw-eq-ok none e h = cc
or_throw-eq-ok (some b) e h = cc

pub merge_presets-Raises :
    (unsafe : Flag) (names : List String) (default : Option String) (target : Dict String)
    {d : Option String} {next : Dict String}
    → HoldsActions target
    → merge_presets unsafe names default target ≡ ok (d, next)
    → Raises target next (λ k. demand_presets k names)
unfolding merge_presets demand_presets
merge_presets-Raises unsafe [] default target {next} h e =
    let same : target ≡ next = ground arith in rw (← same) (h, λ k. omega arith)
merge_presets-Raises unsafe (name ∷ names) default target h e =
    let (preset, found, e₁) =
      >>=-eq-ok (or_throw (lookup name presets) (unknown_preset name)) _ e in
    let (mid, merged, e₂) =
      >>=-eq-ok (merge_entries (from_preset name) unsafe preset.actions target) _ e₁ in
    let (valid, one) =
      merge_entries-Raises (from_preset name) unsafe preset.actions target h merged in
    let (final, rest) = merge_presets-Raises unsafe names _ mid valid e₂ in
    (final, λ k. rw (or_throw-eq-ok _ _ found) (omega (arith, one k, rest k)))

allow-Raises :
    (m : Dict String)
    → HoldsActions m
    → strength_at "injection" m ≡ 0
    → Raises m (insert "injection" "allow" m) (λ k. 0)
unfolding action_of
allow-Raises m h z = (
  insert-HoldsActions "injection" "allow" m refl h,
  λ k. at k (Bool-cases (str_eq "injection" k)),
)
  where
    at :
        (k : String)
        → (str_eq "injection" k ≡ true) ⊎ (str_eq "injection" k ≡ false)
        → strength_at k (insert "injection" "allow" m) ≡ max (strength_at k m) 0
    at k (inl e) =
        let z' : strength_at k m ≡ 0 =
          subst (λ j. strength_at j m ≡ 0) ((eq_iff "injection" k).0 e) z in
        rw (strength_at-insert k "injection" "allow" m, e) (omega arith)
    at k (inr e) = rw (strength_at-insert k "injection" "allow" m, e) (omega arith)

default_injection-Raises :
    (m : Dict String) → HoldsActions m → Raises m (default_injection m) (λ k. 0)
unfolding default_injection
default_injection-Raises m h = elim (Option-cases (lookup "injection" m)) [
  | inl e ↦ rw (e, default_injection) (allow-Raises m h (rw e refl))
  | inr (a, e) ↦
      let filled = valid-ne-empty a (lookup-HoldsActions "injection" m h e) in
      rw (e, default_injection) (rw filled (h, λ k. omega arith))
]

-- What a build that succeeds went through.
pub record Built (src : PolicySource) (p : Policy) : Type 0 where
  pub default : Option String
  pub merged : Dict String
  pub actions : Dict String
  pub from_presets :
      merge_presets
        (or_default src.allow_unsafe_overrides (boolean false))
        (or_default src.presets [])
        (or_default src.default_action (some "redact"))
        []
      ≡ ok (default, merged)
  pub from_config :
      merge_entries from_actions
        (or_default src.allow_unsafe_overrides (boolean false))
        (or_default src.actions [])
        merged
      ≡ ok actions
  pub final : p.actions ≡ default_injection actions
  pub default_kept : p.default_action ≡ default
  pub validated : validate_policy p ≡ ok tt

pub validated-eq-ok :
    (p : Policy) {q : Policy} → validated p ≡ ok q → (p ≡ q) × (validate_policy p ≡ ok tt)
unfolding validated
validated-eq-ok p h =
    let (u, e, same) = >>=-eq-ok (validate_policy p) (λ _. ok p) h in (ground arith, e)

pub build_policy-Built : (src : PolicySource) {p : Policy} → build_policy src ≡ ok p → Built src p
unfolding build_policy
build_policy-Built src {p} e =
    let (m, e₁, h₁) = >>=-eq-ok (merge_presets _ _ _ []) _ e in
    let (a, e₂, h₂) = >>=-eq-ok (merge_entries from_actions _ _ m.1) _ h₁ in
    let (same, valid) = validated-eq-ok (merged_policy src m.0 a) h₂ in
    record {
      default = m.0;
      merged = m.1;
      actions = a;
      from_presets = e₁;
      from_config = e₂;
      final = ap (λ (q : Policy). q.actions) (sym same);
      default_kept = ap (λ (q : Policy). q.default_action) (sym same);
      validated = subst (λ (q : Policy). validate_policy q ≡ ok tt) same valid;
    }

pub Built-Raises :
    (src : PolicySource) {p : Policy}
    → Built src p
    → Raises [] p.actions (λ k.
      max (demand_presets k (or_default src.presets [])) (demand k (or_default src.actions [])))
Built-Raises src b =
    let (v₁, r₁) = merge_presets-Raises _ (or_default src.presets []) _ [] tt b.from_presets in
    let (v₂, r₂) =
      merge_entries-Raises from_actions _ (or_default src.actions []) b.merged v₁ b.from_config in
    let (v₃, r₃) = default_injection-Raises b.actions v₂ in
    rw b.final (v₃, λ k. omega (arith, r₁ k, r₂ k, r₃ k))

-- The strength set for a type is exactly the largest that a selected preset or the configured actions
-- demand of it, and 0 where none does.
pub build_policy-strength :
    (src : PolicySource) {p : Policy} (k : String)
    → build_policy src ≡ ok p
    → strength_at k p.actions
      ≡ max (demand_presets k (or_default src.presets [])) (demand k (or_default src.actions []))
unfolding lookup
build_policy-strength src k e = omega (arith, (Built-Raises src (build_policy-Built src e)).1 k)

Built-strongest :
    (src : PolicySource) {p : Policy} (k : String)
    → Built src p
    → lookup k p.actions
      ≡ or_allow k (
          strongest k
            (strongest_preset k none (or_default src.presets []))
            (or_default src.actions []))
unfolding lookup
Built-strongest src k b =
    let (v₁, r₁) = merge_presets-Raises _ (or_default src.presets []) _ [] tt b.from_presets in
    let (v₂, r₂) =
      merge_entries-Raises from_actions _ (or_default src.actions []) b.merged v₁ b.from_config in
    ap (lookup k) b.final
    ∙ default_injection-or_allow b.actions k v₂
    ∙ ap (or_allow k) (
        merge_entries-strongest from_actions _ (or_default src.actions []) b.merged k v₁
          b.from_config
        ∙ ap (λ o. strongest k o (or_default src.actions []))
            (merge_presets-strongest _ (or_default src.presets []) _ [] k tt b.from_presets))

-- Under a policy that `buildPolicy` compiled from a source, with or without unsafe overrides, the action
-- set for a type is exactly the strongest of those that the selected presets, in order, and then the
-- configured actions state for it, and of equally strong ones the last; where none states one, none is
-- set, but `allow` for the type `injection`. Its strength is the largest that any of them demands, and 0
-- where none does.
pub build_policy-strongest :
    (src : PolicySource) {p : Policy} (k : String)
    → build_policy src ≡ ok p
    → (lookup k p.actions
        ≡ or_allow k (
            strongest k
              (strongest_preset k none (or_default src.presets []))
              (or_default src.actions [])))
      × (strength_at k p.actions
          ≡ max
              (demand_presets k (or_default src.presets []))
              (demand k (or_default src.actions [])))
build_policy-strongest src k e =
    (Built-strongest src k (build_policy-Built src e), build_policy-strength src k e)
