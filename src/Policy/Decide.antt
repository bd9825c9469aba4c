-- ===== src/Policy/Decide.antt =====
-- The action that `decide` answers under a compiled policy.
use haechi.Prelude.{
  ℕ, ◌≤◌, max, String, ◌≡◌, refl, sym, ap, ◌∙◌, subst, ◌⊎◌, inl, inr, true, false, not, ◌&&◌, ◌||◌,
  Option, none, some, [], ◌∷◌, arith, str_eq, eq_iff, if◌then◌else◌, Bool-cases, Option-cases,
  or_default, Dict, lookup, insert, lookup-insert, spread, HasDistinctKeys, lookup-spread, ok, err,
  >>=-eq-ok,
}
use haechi.Policy.Actions.{
  Flag, boolean, is_set, is_truthy, is_valid_action, lt_number, ge_number, action_of,
}
use haechi.Policy.{
  Policy, PolicySource, PolicyError, MergeSource, from_actions, merge_existing, merge_action,
  merge_entries, is_valid_default, validate_policy, default_injection, build_policy, decide,
  weakens, invalid_action, check,
}
use haechi.Policy.Merge.{
  rank, strength_at, HoldsActions, lookup-HoldsActions, valid-ne-empty, valid-strength, demand,
  merge_action-Merged, merge_entries-Raises,
}
use haechi.Policy.Build.{
  demand_presets, build_policy-Built, Built-Raises, build_policy-strength, merge_presets-Raises,
}

rank-ge :
    (k type : String) (o : Option String) (d : Option String) (m : Dict String)
    → lookup k m ≡ o
    → strength_at k m ≤ rank (or_default o (or_default d "redact"))
rank-ge k type none d m e = rw e (omega arith)
rank-ge k type (some a) d m e = rw e (omega arith)

-- Under a compiled policy every type is decided with an action at least as strong as each that a
-- selected preset or the configured actions demand for it, whatever the flag for unsafe overrides.
pub decide-ge_demand :
    (src : PolicySource) (p : Policy) (type rule_id : String) (mode : Option String)
    → build_policy src ≡ ok p
    → max
        (demand_presets type (or_default src.presets []))
        (demand type (or_default src.actions []))
      ≤ rank (decide p type rule_id mode).action
unfolding decide
decide-ge_demand src p type rule_id mode e =
    rw (← build_policy-strength src type e)
      (rank-ge type type (lookup type p.actions) p.default_action p.actions refl)

default-valid :
    (d : Option String) (e : PolicyError)
    → check (not (is_truthy d) || is_valid_default d) e ≡ ok tt
    → (is_valid_action (or_default d "redact") ≡ true) ⊎ (d ≡ some "")
unfolding action_of
default-valid none e h = inl refl
default-valid (some a) e h = elim (Bool-cases (str_eq a "")) [
  | inl s ↦ inr (ap some ((eq_iff a "").0 s))
  | inr s ↦ inl (elim (Bool-cases (is_valid_action a)) [
    | inl v ↦ v
    | inr n ↦
        let bad : check (not (not false) || false) e ≡ ok tt =
          subst (λ b. check (not (not false) || b) e ≡ ok tt) n (rw s at h) in
        cc
  ])
]

validated-default :
    (p : Policy)
    → validate_policy p ≡ ok tt
    → (is_valid_action (or_default p.default_action "redact") ≡ true) ⊎ (p.default_action ≡ some "")
unfolding validate_policy
validated-default p h =
    let (u, e, _) =
      >>=-eq-ok (check (not (is_truthy p.default_action) || is_valid_default p.default_action) _) _
        h in
    default-valid p.default_action _ e

decided-valid :
    (p : Policy) (type rule_id : String) (mode : Option String) (o : Option String)
    → lookup type p.actions ≡ o
    → HoldsActions p.actions
    → (is_valid_action (or_default p.default_action "redact") ≡ true) ⊎ (p.default_action ≡ some "")
    → (is_valid_action (decide p type rule_id mode).action ≡ true)
      ⊎ ((p.default_action ≡ some "") × (o ≡ none) × ((decide p type rule_id mode).action ≡ ""))
unfolding decide
decided-valid p type rule_id mode (some a) e h d =
    inl (rw e (lookup-HoldsActions type p.actions h e))
decided-valid p type rule_id mode none e h (inl v) = inl (rw e v)
decided-valid p type rule_id mode none e h (inr z) = inr (z, refl, rw (e, z) refl)

-- A compiled policy decides every type with one of the six actions, with one exception: where the
-- default action is the empty text, a type with no action of its own gets the empty text.
pub decide-valid :
    (src : PolicySource) (p : Policy) (type rule_id : String) (mode : Option String)
    → build_policy src ≡ ok p
    → (is_valid_action (decide p type rule_id mode).action ≡ true)
      ⊎ ((p.default_action ≡ some "")
          × (lookup type p.actions ≡ none)
          × ((decide p type rule_id mode).action ≡ ""))
decide-valid src p type rule_id mode e =
    let b = build_policy-Built src e in
    decided-valid p type rule_id mode (lookup type p.actions) refl (Built-Raises src b).0
      (validated-default p b.validated)

-- `default_injection` leaves the actions of a type that has one, and gives injection one.
default_injection-lookup :
    (k a : String) (m : Dict String)
    → HoldsActions m
    → lookup k m ≡ some a
    → lookup k (default_injection m) ≡ some a
unfolding default_injection
default_injection-lookup k a m h e = elim (Bool-cases (is_truthy (lookup "injection" m))) [
  | inl t ↦ rw t e
  | inr f ↦ rw f (
      rw (lookup-insert "injection" k "allow" m) (elim (Bool-cases (str_eq "injection" k)) [
        | inl s ↦
            let e' : lookup "injection" m ≡ some a =
              subst (λ j. lookup j m ≡ some a) (sym ((eq_iff "injection" k).0 s)) e in
            let filled = valid-ne-empty a (lookup-HoldsActions k m h e) in
            let n : not (str_eq a "") ≡ false = rw e' at f in
            let bad : not false ≡ false = rw filled at n in cc
        | inr s ↦ rw s e
      ]))
]

default_injection-IsSome :
    (m : Dict String)
    → HoldsActions m
    → (a : String) × (lookup "injection" (default_injection m) ≡ some a)
default_injection-IsSome m h = elim (Option-cases (lookup "injection" m)) [
  | inl e ↦ ("allow", missing e)
  | inr (a, e) ↦ (a, default_injection-lookup "injection" a m h e)
]
  where
    missing : lookup "injection" m ≡ none → lookup "injection" (default_injection m) ≡ some "allow"
    missing e =
        let opened : default_injection m ≡ insert "injection" "allow" m =
          unfold default_injection in (rw (e, default_injection) refl) in
        rw (opened, lookup-insert "injection" "injection" "allow" m) refl

-- Injection detections are only reported: with no action demanded for them, they are decided with
-- an action of strength 0, whatever the default action is.
pub decide-injection :
    (src : PolicySource) (p : Policy) (rule_id : String) (mode : Option String)
    → build_policy src ≡ ok p
    → demand_presets "injection" (or_default src.presets []) ≡ 0
    → demand "injection" (or_default src.actions []) ≡ 0
    → rank (decide p "injection" rule_id mode).action ≡ 0
unfolding decide
decide-injection src p rule_id mode e hp ha =
    let b = build_policy-Built src e in
    let valid =
      (merge_entries-Raises from_actions _ _ b.merged
        (merge_presets-Raises _ _ _ [] tt b.from_presets).0 b.from_config).0 in
    let (a, found) = default_injection-IsSome b.actions valid in
    let here : lookup "injection" p.actions ≡ some a = rw b.final found in
    let zero_strength : strength_at "injection" p.actions ≡ 0 =
      omega (arith, build_policy-strength src "injection" e) in
    rw here (rw here at zero_strength)

-- Without overrides a merge that succeeds has set the action.
merge_existing_strict :
    (target next : Dict String) (type action : String) (source : MergeSource) (unsafe : Flag)
    (found : Option String)
    → lookup type target ≡ found
    → HoldsActions target
    → is_set unsafe ≡ false
    → is_valid_action action ≡ true
    → merge_existing target type action source unsafe found ≡ ok next
    → next ≡ insert type action target
unfolding merge_existing
merge_existing_strict target next type action source unsafe none e h s v m = ground arith
merge_existing_strict target next type action source unsafe (some old) e h s v m =
    let valid = lookup-HoldsActions type target h e in
    let (n, en) = valid-strength action v in
    let (k, ek) = valid-strength old valid in
    strict n k (rw (valid-ne-empty old valid, en, ek, s) at m)
  where
    strict :
        (n k : ℕ)
        → (if lt_number (some n) (some k) && not false
            then err (weakens type source old action)
            else if ge_number (some n) (some k)
            then ok (insert type action target)
            else ok target)
          ≡ ok next
        → next ≡ insert type action target
    strict n k q = ground arith

merge_action_strict :
    (target next : Dict String) (type action : String) (source : MergeSource) (unsafe : Flag)
    → HoldsActions target
    → is_set unsafe ≡ false
    → merge_action target type action source unsafe ≡ ok next
    → next ≡ insert type action target
unfolding merge_action
merge_action_strict target next type action source unsafe h s m =
    elim (Bool-cases (is_valid_action action)) [
      | inl v ↦
          merge_existing_strict target next type action source unsafe (lookup type target) refl h s
            v (rw v at m)
      | inr bad ↦ let no_merge : err (invalid_action type action) ≡ ok next = rw bad at m in cc
    ]

pub merge_entries_strict :
    (source : MergeSource) (unsafe : Flag) (entries target next : Dict String)
    → HoldsActions target
    → is_set unsafe ≡ false
    → merge_entries source unsafe entries target ≡ ok next
    → next ≡ spread target entries
unfolding merge_entries spread
merge_entries_strict source unsafe [] target next h s e = ground arith
merge_entries_strict source unsafe ((type, action) ∷ rest) target next h s e =
    let (mid, first, later) =
      >>=-eq-ok (merge_action target type action source unsafe) (merge_entries source unsafe rest)
        e in
    let same = merge_action_strict target mid type action source unsafe h s first in
    let valid = (merge_action-Merged target type action source unsafe h first).0 in
    merge_entries_strict source unsafe rest mid next valid s later ∙ ap (λ m. spread m rest) same

-- Without unsafe overrides a configuration never loses an action that it states: if the policy
-- compiles at all, each configured type is decided with exactly its configured action.
pub decide-configured :
    (src : PolicySource) (p : Policy) (type action rule_id : String) (mode : Option String)
    → build_policy src ≡ ok p
    → is_set (or_default src.allow_unsafe_overrides (boolean false)) ≡ false
    → HasDistinctKeys (or_default src.actions [])
    → lookup type (or_default src.actions []) ≡ some action
    → (decide p type rule_id mode).action ≡ action
unfolding decide
decide-configured src p type action rule_id mode e s d found =
    let b = build_policy-Built src e in
    let valid = (merge_presets-Raises _ _ _ [] tt b.from_presets).0 in
    let strict =
      merge_entries_strict from_actions _ (or_default src.actions []) b.merged b.actions valid s
        b.from_config in
    let held = (merge_entries-Raises from_actions _ _ b.merged valid b.from_config).0 in
    let here : lookup type b.actions ≡ some action =
      rw (strict, lookup-spread type b.merged (or_default src.actions []) d, found) refl in
    rw (b.final, default_injection-lookup type action b.actions held here) refl
