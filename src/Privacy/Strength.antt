-- ===== src/Privacy/Strength.antt =====
-- A privacy profile raises strengths and changes nothing else.
use haechi.Prelude.{
  ℕ, ◌≤◌, max, String, ◌≡◌, refl, subst, ◌⊎◌, inl, inr, Bool, true, false, Option, none, some, [],
  ◌∷◌, arith, str_eq, if◌then◌else◌, Bool-cases, Option-cases, or_default, All, Dict, lookup,
  insert, ok, err, >>=-eq-ok, ltb,
}
use mathlib.Core.Option.{some-injective}
use haechi.Policy.Actions.{is_valid_action, strength, lt_number, action_of, Action, action_strength}
use haechi.Policy.{PolicySource, unknown_privacy_profile}
use haechi.Policy.Merge.{
  rank, strength_at, HoldsActions, lookup-HoldsActions, valid-ne-empty, valid-strength, demand,
  Raises, Merged, insert-Merged, keep-Merged,
}
use haechi.Privacy.{
  PrivacyProfile, privacy_profiles, get_privacy_profile, yields_to, strengthen, Applied,
  apply_privacy_profile,
}

test-Merged :
    (actions : Dict String) (type action : String) (b : Bool)
    → HoldsActions actions
    → is_valid_action action ≡ true
    → (b ≡ true → strength_at type actions ≤ rank action)
    → (b ≡ false → rank action ≤ strength_at type actions)
    → Merged actions type action (if b then insert type action actions else actions)
test-Merged actions type action true h v up down = insert-Merged actions type action h v (up refl)
test-Merged actions type action false h v up down = keep-Merged actions type action h (down refl)

lt_strength :
    (a b : String) (t : Bool)
    → is_valid_action a ≡ true
    → is_valid_action b ≡ true
    → lt_number (strength a) (strength b) ≡ t
    → (if t then rank a ≤ rank b else rank b ≤ rank a)
lt_strength a b t va vb e =
    let (n, en) = valid-strength a va in
    let (m, em) = valid-strength b vb in
    let e' : ltb n m ≡ t = rw (en, em) at e in rw (en, em) (order n m t e')
  where
    order : (n m : ℕ) (t : Bool) → ltb n m ≡ t → (if t then n ≤ m else m ≤ n)
    order n m true q = ground arith
    order n m false q = ground arith

step-Merged :
    (actions : Dict String) (type action : String) (found : Option String)
    → lookup type actions ≡ found
    → HoldsActions actions
    → is_valid_action action ≡ true
    → Merged actions type action
        (if yields_to found action then insert type action actions else actions)
step-Merged actions type action none e h v =
    insert-Merged actions type action h v (rw e (omega arith))
step-Merged actions type action (some old) e h v =
    let valid = lookup-HoldsActions type actions h e in
    rw (valid-ne-empty old valid) (
      test-Merged actions type action (lt_number (strength old) (strength action)) h v
        (λ t. rw e (lt_strength old action true valid v t))
        (λ f. rw e (lt_strength old action false valid v f)))

strengthen-Raises :
    (actions entries : Dict String)
    → HoldsActions actions
    → HoldsActions entries
    → Raises actions (strengthen actions entries) (λ k. demand k entries)
unfolding strengthen demand
strengthen-Raises actions [] h v = (h, λ k. omega arith)
strengthen-Raises actions ((type, action) ∷ rest) h v =
    let next =
      if yields_to (lookup type actions) action then insert type action actions else actions in
    let (valid, one) = step-Merged actions type action (lookup type actions) refl h v.0 in
    let (final, all) = strengthen-Raises next rest valid v.1 in
    (final, λ k. join k (strength_at k next) (Bool-cases (str_eq type k)) (one k) (all k))
  where
    join :
        (k : String) (mid : ℕ)
        → (str_eq type k ≡ true) ⊎ (str_eq type k ≡ false)
        → mid ≡ (
            if str_eq type k
            then max (strength_at k actions) (rank action)
            else strength_at k actions)
        → strength_at k (strengthen actions ((type, action) ∷ rest)) ≡ max mid (demand k rest)
        → strength_at k (strengthen actions ((type, action) ∷ rest))
          ≡ max
              (strength_at k actions)
              (max (if str_eq type k then rank action else 0) (demand k rest))
    join k mid (inl e) p q = rw e (let p' = rw e at p in omega arith)
    join k mid (inr e) p q = rw e (let p' = rw e at p in omega arith)

abbrev IsProfile : PrivacyProfile → Type 0
IsProfile p = HoldsActions p.actions × (demand "jp_mynumber" p.actions ≡ 3)

profiles_table : All (λ (e : String × PrivacyProfile). IsProfile e.1) privacy_profiles
unfolding privacy_profiles action_of demand
profiles_table = assumption refl

lookup-All {ℓ} :
    {V : Type 0} (P : V → Type ℓ) (k : String) (m : Dict V) {v : V}
    → All (λ (e : String × V). P e.1) m
    → lookup k m ≡ some v
    → P v
unfolding lookup
lookup-All P k [] h e = cc
lookup-All P k ((j, w) ∷ m) {v} h e = elim (Bool-cases (str_eq j k)) [
  | inl s ↦ let same : some w ≡ some v = rw s at e in subst P (some-injective w v same) h.0
  | inr s ↦ lookup-All P k m h.1 (rw s at e)
]

get-IsProfile : (id : String) {p : PrivacyProfile} → get_privacy_profile id ≡ ok p → IsProfile p
unfolding get_privacy_profile
get-IsProfile id {p} h = elim (Option-cases (lookup id privacy_profiles)) [
  | inl e ↦ let bad : err (unknown_privacy_profile id) ≡ ok p = rw e at h in cc
  | inr (q, e) ↦
      let same : q ≡ p = ground arith in
      subst IsProfile same (lookup-All IsProfile id privacy_profiles profiles_table e)
]

action_strength-le : (a : Action) → action_strength a ≤ 3
action_strength-le a = ground arith

strength_at-le : (k : String) (m : Dict String) → strength_at k m ≤ 3
strength_at-le k m = elim (Option-cases (lookup k m)) [
  | inl e ↦ rw e (omega arith)
  | inr (a, e) ↦ elim (Option-cases (action_of a)) [
    | inl n ↦ rw (e, n) (omega arith)
    | inr (x, n) ↦ rw (e, n) (action_strength-le x)
  ]
]

-- Applied to a configuration whose actions are valid, a privacy profile leaves every type at the
-- larger of the configured strength and the profile's: it never weakens, and it weakens nothing of
-- its own baseline; every profile blocks Japan's My Number.
pub apply_privacy_profile-strength :
    (src : PolicySource) (id : String) (a : Applied)
    → HoldsActions (or_default src.actions [])
    → apply_privacy_profile src id ≡ ok a
    → (p : PrivacyProfile) × (get_privacy_profile id ≡ ok p)
      × ((k : String)
          → strength_at k (or_default a.source.actions [])
            ≡ max (strength_at k (or_default src.actions [])) (demand k p.actions))
      × (strength_at "jp_mynumber" (or_default a.source.actions []) ≡ 3)
unfolding apply_privacy_profile
apply_privacy_profile-strength src id a v h =
    let (p, e, h') = >>=-eq-ok (get_privacy_profile id) _ h in
    let (valid, blocks) = get-IsProfile id e in
    let actions : or_default a.source.actions []
        ≡ strengthen (or_default src.actions []) p.actions =
      ground arith in
    let raised = (strengthen-Raises (or_default src.actions []) p.actions v valid).1 in
    (
      p,
      e,
      λ k. rw actions (raised k),
      rw actions (
          omega (
            arith,
            raised "jp_mynumber",
            strength_at-le "jp_mynumber" (or_default src.actions []),
          )),
    )
