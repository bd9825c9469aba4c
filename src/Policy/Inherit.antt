-- ===== src/Policy/Inherit.antt =====
-- What a profile inherits: the strength of a type under a profile that states an action for it.
use haechi.Prelude.{
  max, String, ◌≡◌, refl, sym, ap, ◌∙◌, subst, inl, inr, true, false, none, some, [], ◌∷◌, arith,
  str_eq, eq_iff, Bool-cases, or_default, Dict, lookup, insert, spread, HasDistinctKeys,
  lookup-insert, lookup-spread, ok, >>=-eq-ok,
}
use haechi.Policy.{Policy, PolicySource, build_policy, validated}
use haechi.Policy.Merge.{rank, rank_or_zero, strength_at, demand}
use haechi.Policy.Build.{demand_presets, build_policy-strength, validated-eq-ok}
use haechi.Policy.Profiles.{
  Override, Engine, Transform, stated, merge_override, compile_source, compile_engine,
}

demand-none : (k : String) (m : Dict String) → lookup k m ≡ none → demand k m ≡ 0
unfolding demand lookup
demand-none k [] h = refl
demand-none k ((j, a) ∷ m) h = elim (Bool-cases (str_eq j k)) [
  | inl e ↦ let bad : some a ≡ none = rw e at h in cc
  | inr e ↦ rw e (omega (arith, demand-none k m (rw e at h)))
]

-- A map with distinct keys demands of a type the strength of its entry.
pub demand-lookup :
    (k : String) (m : Dict String) → HasDistinctKeys m → demand k m ≡ rank_or_zero (lookup k m)
unfolding demand lookup
demand-lookup k [] d = refl
demand-lookup k ((j, a) ∷ m) d = elim (Bool-cases (str_eq j k)) [
  | inl e ↦
      let gone : lookup k m ≡ none = subst (λ i. lookup i m ≡ none) ((eq_iff j k).0 e) d.0 in
      rw e (omega (arith, demand-none k m gone))
  | inr e ↦ rw e (omega (arith, demand-lookup k m d.1))
]

insert-HasDistinctKeys :
    (k a : String) (m : Dict String) → HasDistinctKeys m → HasDistinctKeys (insert k a m)
unfolding insert lookup
insert-HasDistinctKeys k a [] d = (refl, tt)
insert-HasDistinctKeys k a ((j, b) ∷ m) d = elim (Bool-cases (str_eq j k)) [
  | inl e ↦ rw e d
  | inr e ↦ rw e (
    rw (lookup-insert k j a m) (elim (Bool-cases (str_eq k j)) [
      | inl s ↦
          let s' : str_eq j k ≡ true = (eq_iff j k).1 (sym ((eq_iff k j).0 s)) in
          let bad : true ≡ false = sym s' ∙ e in cc
      | inr s ↦ rw s d.0
    ]),
    insert-HasDistinctKeys k a m d.1,
  )
]

spread-HasDistinctKeys :
    (base over : Dict String) → HasDistinctKeys base → HasDistinctKeys (spread base over)
unfolding spread
spread-HasDistinctKeys base [] d = d
spread-HasDistinctKeys base ((k, a) ∷ over) d =
    spread-HasDistinctKeys (insert k a base) over (insert-HasDistinctKeys k a base d)

compile_source-build_policy :
    (transform : Transform) (src : PolicySource) {p : Policy}
    → compile_source transform src ≡ ok p
    → (applied : PolicySource) × (transform src ≡ ok applied) × (build_policy applied ≡ ok p)
unfolding compile_source
compile_source-build_policy transform src {p} h =
    let (applied, e₁, h₁) = >>=-eq-ok (transform src) _ h in
    let (q, e₂, h₂) = >>=-eq-ok (build_policy applied) validated h₁ in
    let (same, _) = validated-eq-ok q h₂ in (applied, e₁, e₂ ∙ ap ok same)

compile_engine-policy :
    (transform : Transform) (o : Override) {e : Engine}
    → compile_engine transform o ≡ ok e
    → compile_source transform o.source ≡ ok e.policy
unfolding compile_engine
compile_engine-policy transform o {e} h =
    let (p, e₁, h₁) =
      >>=-eq-ok (compile_source transform o.source)
        (λ p. ok (record { policy = p; model_allowlist = o.model_allowlist; rate = o.rate })) h in
    ground arith

-- A profile's action for a type replaces the base configuration's, even a stronger one: with no
-- transform, the strength under the profile is the larger of the profile's own action's and of what
-- the presets in force demand, and the base configuration's action for the type does not count.
pub profile-strength :
    (base over : Override) (e : Engine) (type action : String)
    → compile_engine ok (merge_override base over) ≡ ok e
    → HasDistinctKeys (or_default base.source.actions [])
    → HasDistinctKeys (or_default over.source.actions [])
    → lookup type (or_default over.source.actions []) ≡ some action
    → strength_at type e.policy.actions
      ≡ max
          (demand_presets type (or_default (stated over.source.presets base.source.presets) []))
          (rank action)
unfolding merge_override
profile-strength base over e type action h db do_ found =
    let old = or_default base.source.actions [] in
    let new = or_default over.source.actions [] in
    let (applied, same, built) =
      compile_source-build_policy ok _ (compile_engine-policy ok (merge_override base over) h) in
    let src = (merge_override base over).source in
    let built' : build_policy src ≡ ok e.policy =
      subst (λ s. build_policy s ≡ ok e.policy) (ground arith) built in
    let entry : lookup type (spread old new) ≡ some action =
      rw (lookup-spread type old new do_, found) refl in
    let total : demand type (spread old new) ≡ rank action =
      demand-lookup type (spread old new) (spread-HasDistinctKeys old new db)
      ∙ ap rank_or_zero entry in
    build_policy-strength src type built'
    ∙ ap (max (demand_presets type (or_default src.presets []))) total
