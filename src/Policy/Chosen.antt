-- ===== src/Policy/Chosen.antt =====
-- Which action `buildPolicy` sets for a type, where several are demanded.
use haechi.Prelude.{
  ℕ, String, ◌≡◌, refl, sym, ap, ◌∙◌, ◌⊎◌, inl, inr, Bool, true, false, not, ◌&&◌, Option, none,
  some, List, [], ◌∷◌, arith, str_eq, eq_iff, leb, if◌then◌else◌, Bool-cases, Option-cases,
  or_default, Dict, lookup, insert, lookup-insert, Result, ok, err, >>=-eq-ok, or_throw, subst,
}
use haechi.Policy.Actions.{is_valid_action, Flag, is_set, lt_number, ge_number}
use haechi.Policy.{
  MergeSource, PolicyError, Preset, presets, weakens, invalid_action, unknown_preset, from_preset,
  merge_existing, merge_action, merge_entries, merge_presets, default_injection,
}
use haechi.Policy.Merge.{
  rank, HoldsActions, lookup-HoldsActions, valid-ne-empty, valid-strength, merge_action-Merged,
  merge_entries-Raises,
}

-- The stronger of two actions, and the later one if they are as strong.
abbrev pub stronger : Option String → String → Option String
stronger none a = some a
stronger (some b) a = if leb (rank b) (rank a) then some a else some b

-- The strongest of an action that a type has and those that a map, or presets, demand for it.
unfoldable pub strongest : String → Option String → Dict String → Option String
strongest k had [] = had
strongest k had ((type, action) ∷ rest) =
    strongest k (if str_eq type k then stronger had action else had) rest

abbrev pub strongest_in : String → Option String → Option Preset → Option String
unfolding strongest
strongest_in k had none = had
strongest_in k had (some p) = strongest k had p.actions

unfoldable pub strongest_preset : String → Option String → List String → Option String
unfolding strongest_in
strongest_preset k had [] = had
strongest_preset k had (name ∷ names) =
    strongest_preset k (strongest_in k had (lookup name presets)) names

abbrev pub or_allow : String → Option String → Option String
or_allow k none = if str_eq "injection" k then some "allow" else none
or_allow k (some a) = some a

abbrev Takes : Dict String → String → String → Dict String → Type 0
Takes target type action next =
    (k : String)
    → lookup k next ≡ (if str_eq type k then stronger (lookup k target) action else lookup k target)

insert-Takes :
    (target : Dict String) (type action : String)
    → stronger (lookup type target) action ≡ some action
    → Takes target type action (insert type action target)
insert-Takes target type action s k =
    lookup-insert type k action target ∙ same (Bool-cases (str_eq type k))
  where
    same :
        (str_eq type k ≡ true) ⊎ (str_eq type k ≡ false)
        → (if str_eq type k then some action else lookup k target)
          ≡ (if str_eq type k then stronger (lookup k target) action else lookup k target)
    same (inl e) = rw e (rw (← (eq_iff type k).0 e) (sym s))
    same (inr e) = rw e refl

keep-Takes :
    (target : Dict String) (type action : String)
    → stronger (lookup type target) action ≡ lookup type target
    → Takes target type action target
keep-Takes target type action s k = same (Bool-cases (str_eq type k))
  where
    same :
        (str_eq type k ≡ true) ⊎ (str_eq type k ≡ false)
        → lookup k target
          ≡ (if str_eq type k then stronger (lookup k target) action else lookup k target)
    same (inl e) = rw e (rw (← (eq_iff type k).0 e) (sym s))
    same (inr e) = rw e refl

abbrev Took : Dict String → String → String → Result PolicyError (Dict String) → Type 0
Took target type action (ok next) = Takes target type action next
Took target type action (err e) = Unit

merge_strengths-Took :
    (target : Dict String) (type action old : String) (e : PolicyError) (unsafe : Bool) (n m : ℕ)
    → lookup type target ≡ some old
    → rank action ≡ n
    → rank old ≡ m
    → Took target type action (
        if lt_number (some n) (some m) && not unsafe
        then err e
        else if ge_number (some n) (some m)
        then ok (insert type action target)
        else ok target)
merge_strengths-Took target type action old e unsafe n m there en em =
    elim (Bool-cases (lt_number (some n) (some m) && not unsafe)) [
      | inl weak ↦ rw weak tt
      | inr kept ↦ rw kept (elim (Bool-cases (leb m n)) [
        | inl strong ↦
            rw strong (insert-Takes target type action (rw there (rw (em, en) (rw strong refl))))
        | inr weak ↦ rw weak (keep-Takes target type action (rw there (rw (em, en) (rw weak refl))))
      ])
    ]

merge_existing-Took :
    (target : Dict String) (type action : String) (source : MergeSource) (unsafe : Flag)
    (found : Option String)
    → lookup type target ≡ found
    → HoldsActions target
    → is_valid_action action ≡ true
    → Took target type action (merge_existing target type action source unsafe found)
unfolding merge_existing
merge_existing-Took target type action source unsafe none e h v =
    insert-Takes target type action (rw e refl)
merge_existing-Took target type action source unsafe (some old) e h v =
    let valid = lookup-HoldsActions type target h e in
    let (n, en) = valid-strength action v in
    let (m, em) = valid-strength old valid in
    rw (valid-ne-empty old valid, en, em)
      (merge_strengths-Took target type action old (weakens type source old action) (is_set unsafe)
        n m e (ap (λ o. or_default o 0) en) (ap (λ o. or_default o 0) em))

merge_action-Takes :
    (target : Dict String) (type action : String) (source : MergeSource) (unsafe : Flag)
    {next : Dict String}
    → HoldsActions target
    → merge_action target type action source unsafe ≡ ok next
    → Takes target type action next
unfolding merge_action
merge_action-Takes target type action source unsafe {next} h e =
    elim (Bool-cases (is_valid_action action)) [
      | inl v ↦
          subst (Took target type action) (rw v at e)
            (merge_existing-Took target type action source unsafe (lookup type target) refl h v)
      | inr bad ↦ let absurd_case : err (invalid_action type action) ≡ ok next = rw bad at e in cc
    ]

pub merge_entries-strongest :
    (source : MergeSource) (unsafe : Flag) (entries target : Dict String) {next : Dict String}
    (k : String)
    → HoldsActions target
    → merge_entries source unsafe entries target ≡ ok next
    → lookup k next ≡ strongest k (lookup k target) entries
unfolding merge_entries strongest
merge_entries-strongest source unsafe [] target {next} k h e =
    let same : target ≡ next = ground arith in rw (← same) refl
merge_entries-strongest source unsafe ((type, action) ∷ rest) target {next} k h e =
    let (mid, first, later) =
      >>=-eq-ok (merge_action target type action source unsafe) (merge_entries source unsafe rest)
        e in
    let valid = (merge_action-Merged target type action source unsafe h first).0 in
    merge_entries-strongest source unsafe rest mid k valid later
    ∙ ap (λ o. strongest k o rest) (merge_action-Takes target type action source unsafe h first k)

or_throw-ok : {E A : Type 0} (o : Option A) (e : E) {a : A} → or_throw o e ≡ ok a → o ≡ some a
or_throw-ok none e h = cc
or_throw-ok (some b) e h = cc

pub merge_presets-strongest :
    (unsafe : Flag) (names : List String) (default : Option String) (target : Dict String)
    {d : Option String} {next : Dict String} (k : String)
    → HoldsActions target
    → merge_presets unsafe names default target ≡ ok (d, next)
    → lookup k next ≡ strongest_preset k (lookup k target) names
unfolding merge_presets strongest_preset
merge_presets-strongest unsafe [] default target {d} {next} k h e =
    let same : target ≡ next = ground arith in rw (← same) refl
merge_presets-strongest unsafe (name ∷ names) default target k h e =
    let (preset, found, e₁) =
      >>=-eq-ok (or_throw (lookup name presets) (unknown_preset name)) _ e in
    let (mid, merged, e₂) =
      >>=-eq-ok (merge_entries (from_preset name) unsafe preset.actions target) _ e₁ in
    let valid = (merge_entries-Raises (from_preset name) unsafe preset.actions target h merged).0 in
    merge_presets-strongest unsafe names _ mid k valid e₂
    ∙ ap (λ o. strongest_preset k o names)
        (merge_entries-strongest (from_preset name) unsafe preset.actions target k h merged
          ∙ ap (strongest_in k (lookup k target)) (sym (or_throw-ok _ _ found)))

pub default_injection-or_allow :
    (m : Dict String) (k : String)
    → HoldsActions m
    → lookup k (default_injection m) ≡ or_allow k (lookup k m)
unfolding default_injection
default_injection-or_allow m k h = elim (Option-cases (lookup "injection" m)) [
  | inl e ↦
      rw (e, default_injection)
        (lookup-insert "injection" k "allow" m ∙ unset e (Bool-cases (str_eq "injection" k)))
  | inr (a, e) ↦
      let filled = valid-ne-empty a (lookup-HoldsActions "injection" m h e) in
      rw (e, default_injection)
        (rw filled (kept a e (lookup k m) refl (Bool-cases (str_eq "injection" k))))
]
  where
    unset :
        lookup "injection" m ≡ none
        → (str_eq "injection" k ≡ true) ⊎ (str_eq "injection" k ≡ false)
        → (if str_eq "injection" k then some "allow" else lookup k m) ≡ or_allow k (lookup k m)
    unset e (inl s) =
        let here : lookup k m ≡ none =
          subst (λ j. lookup j m ≡ none) ((eq_iff "injection" k).0 s) e in
        rw here (rw s refl)
    unset e (inr s) = rw s (other (lookup k m))
      where
        other : (o : Option String) → o ≡ or_allow k o
        other none = rw s refl
        other (some a) = refl

    kept :
        (a : String)
        → lookup "injection" m ≡ some a
        → (o : Option String) → lookup k m ≡ o
        → (str_eq "injection" k ≡ true) ⊎ (str_eq "injection" k ≡ false)
        → o ≡ or_allow k o
    kept a e (some b) f s = refl
    kept a e none f (inl s) =
        let here : lookup k m ≡ some a =
          subst (λ j. lookup j m ≡ some a) ((eq_iff "injection" k).0 s) e in
        cc
    kept a e none f (inr s) = rw s refl
