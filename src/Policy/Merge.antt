-- ===== src/Policy/Merge.antt =====
-- What a merge of one action, and of a map of actions, does to every type's strength.
use haechi.Prelude.{
  ℕ, ◌≤◌, max, String, ◌≡◌, refl, ap, ◌∙◌, ◌⊎◌, inl, inr, Bool, true, false, not, ◌&&◌, Option,
  none, some, [], ◌∷◌, arith, str_eq, eq_iff, if◌then◌else◌, Bool-cases, Option-cases, or_default,
  All, Dict, lookup, insert, lookup-insert, Result, ok, err, >>=-eq-ok, leb, leb→le, subst,
}
use haechi.Policy.Actions.{
  action_of, is_valid_action, strength, Flag, is_set, action_strength, lt_number, ge_number,
}
use haechi.Policy.{
  MergeSource, PolicyError, weakens, invalid_action, merge_existing, merge_action, merge_entries,
}

-- The strength of an action that is one, and 0 for any other text.
abbrev pub rank : String → ℕ
rank a = or_default (strength a) 0

abbrev pub rank_or_zero : Option String → ℕ
rank_or_zero none = 0
rank_or_zero (some a) = rank a

-- The strength of what a map of actions does to a type.
abbrev pub strength_at : String → Dict String → ℕ
strength_at k m = rank_or_zero (lookup k m)

abbrev pub HoldsActions : Dict String → Type 0
HoldsActions m = All (λ e. is_valid_action e.1 ≡ true) m

pub insert-HoldsActions :
    (k a : String) (m : Dict String)
    → is_valid_action a ≡ true
    → HoldsActions m
    → HoldsActions (insert k a m)
unfolding insert
insert-HoldsActions k a [] v h = (v, tt)
insert-HoldsActions k a ((j, b) ∷ m) v h = elim (Bool-cases (str_eq j k)) [
  | inl e ↦ rw e (v, h.1)
  | inr e ↦ rw e (h.0, insert-HoldsActions k a m v h.1)
]

pub lookup-HoldsActions :
    (k : String) {a : String} (m : Dict String)
    → HoldsActions m
    → lookup k m ≡ some a
    → is_valid_action a ≡ true
unfolding lookup
lookup-HoldsActions k [] h e = cc
lookup-HoldsActions k {a} ((j, b) ∷ m) h e = elim (Bool-cases (str_eq j k)) [
  | inl s ↦ let b≡a : b ≡ a = ground arith in rw (← b≡a) h.0
  | inr s ↦ lookup-HoldsActions k m h.1 (rw s at e)
]

pub valid-ne-empty : (a : String) → is_valid_action a ≡ true → str_eq a "" ≡ false
unfolding action_of
valid-ne-empty a v = elim (Bool-cases (str_eq a "")) [
  | inl e ↦ let n : false ≡ true = rw ((eq_iff a "").0 e) at v in cc
  | inr e ↦ e
]

pub strength_at-insert :
    (k type a : String) (m : Dict String)
    → strength_at k (insert type a m) ≡ (if str_eq type k then rank a else strength_at k m)
strength_at-insert k type a m =
    rw (lookup-insert type k a m)
      (elim (Bool-cases (str_eq type k)) [ inl e ↦ rw e refl | inr e ↦ rw e refl ])

-- The merge of a valid action into a map of valid actions, by cases on what the type had.
abbrev pub Merged : Dict String → String → String → Dict String → Type 0
Merged target type action next =
    HoldsActions next
    × ((k : String)
        → strength_at k next ≡ (
            if str_eq type k
            then max (strength_at k target) (rank action)
            else strength_at k target))

pub insert-Merged :
    (target : Dict String) (type action : String)
    → HoldsActions target
    → is_valid_action action ≡ true
    → strength_at type target ≤ rank action
    → Merged target type action (insert type action target)
insert-Merged target type action h v le = (
  insert-HoldsActions type action target v h,
  λ k. strength_at-insert k type action target ∙ same k (Bool-cases (str_eq type k)),
)
  where
    same :
        (k : String)
        → (str_eq type k ≡ true) ⊎ (str_eq type k ≡ false)
        → (if str_eq type k then rank action else strength_at k target) ≡ (
            if str_eq type k
            then max (strength_at k target) (rank action)
            else strength_at k target)
    same k (inl e) = rw e (rw (← (eq_iff type k).0 e) (omega arith))
    same k (inr e) = rw e refl

pub keep-Merged :
    (target : Dict String) (type action : String)
    → HoldsActions target
    → rank action ≤ strength_at type target
    → Merged target type action target
keep-Merged target type action h le = (h, λ k. same k (Bool-cases (str_eq type k)))
  where
    same :
        (k : String)
        → (str_eq type k ≡ true) ⊎ (str_eq type k ≡ false)
        → strength_at k target ≡ (
            if str_eq type k
            then max (strength_at k target) (rank action)
            else strength_at k target)
    same k (inl e) = rw e (rw (← (eq_iff type k).0 e) (omega arith))
    same k (inr e) = rw e refl

abbrev Merges : Dict String → String → String → Result PolicyError (Dict String) → Type 0
Merges target type action (ok next) = Merged target type action next
Merges target type action (err e) = Unit

pub valid-strength : (a : String) → is_valid_action a ≡ true → (n : ℕ) × (strength a ≡ some n)
valid-strength a v = elim (Option-cases (action_of a)) [
  | inl e ↦ let n : false ≡ true = rw e at v in cc
  | inr (x, e) ↦ (action_strength x, rw e refl)
]

-- The part of `mergeAction` behind the tests for a missing entry.
merge_strengths-Merges :
    (target : Dict String) (type action old : String) (e : PolicyError) (unsafe : Bool) (n m : ℕ)
    → HoldsActions target
    → is_valid_action action ≡ true
    → rank action ≡ n
    → strength_at type target ≡ m
    → Merges target type action (
        if lt_number (some n) (some m) && not unsafe
        then err e
        else if ge_number (some n) (some m)
        then ok (insert type action target)
        else ok target)
merge_strengths-Merges target type action old e unsafe n m h v en em =
    elim (Bool-cases (lt_number (some n) (some m) && not unsafe)) [
      | inl weak ↦ rw weak tt
      | inr kept ↦ rw kept (elim (Bool-cases (leb m n)) [
        | inl strong ↦
            rw strong (insert-Merged target type action h v (omega (arith, leb→le m n strong)))
        | inr weak ↦
            let le : n ≤ m = ground arith in
            rw weak (keep-Merged target type action h (omega arith))
      ])
    ]

merge_existing-Merges :
    (target : Dict String) (type action : String) (source : MergeSource) (unsafe : Flag)
    (found : Option String)
    → lookup type target ≡ found
    → HoldsActions target
    → is_valid_action action ≡ true
    → Merges target type action (merge_existing target type action source unsafe found)
unfolding merge_existing
merge_existing-Merges target type action source unsafe none e h v =
    insert-Merged target type action h v (rw e (omega arith))
merge_existing-Merges target type action source unsafe (some old) e h v =
    let valid = lookup-HoldsActions type target h e in
    let (n, en) = valid-strength action v in
    let (m, em) = valid-strength old valid in
    rw (valid-ne-empty old valid, en, em)
      (merge_strengths-Merges target type action old (weakens type source old action)
        (is_set unsafe) n m h v (ap (λ o. or_default o 0) en) (rw e (ap (λ o. or_default o 0) em)))

-- A merge that succeeds leaves valid actions, raises the type's strength to the larger of the
-- two, and leaves every other type's.
pub merge_action-Merged :
    (target : Dict String) (type action : String) (source : MergeSource) (unsafe : Flag)
    {next : Dict String}
    → HoldsActions target
    → merge_action target type action source unsafe ≡ ok next
    → Merged target type action next
unfolding merge_action
merge_action-Merged target type action source unsafe {next} h e =
    elim (Bool-cases (is_valid_action action)) [
      | inl v ↦
          subst (Merges target type action) (rw v at e)
            (merge_existing-Merges target type action source unsafe (lookup type target) refl h v)
      | inr bad ↦ let absurd_case : err (invalid_action type action) ≡ ok next = rw bad at e in cc
    ]

-- The strength that a map of actions demands for a type: the largest of its entries for it.
unfoldable pub demand : String → Dict String → ℕ
demand k [] = 0
demand k ((type, action) ∷ rest) = max (if str_eq type k then rank action else 0) (demand k rest)

abbrev pub Raises : Dict String → Dict String → (String → ℕ) → Type 0
Raises before after demanded =
    HoldsActions after
    × ((k : String) → strength_at k after ≡ max (strength_at k before) (demanded k))

pub merge_entries-Raises :
    (source : MergeSource) (unsafe : Flag) (entries target : Dict String) {next : Dict String}
    → HoldsActions target
    → merge_entries source unsafe entries target ≡ ok next
    → Raises target next (λ k. demand k entries)
unfolding merge_entries demand
merge_entries-Raises source unsafe [] target {next} h e =
    let same : target ≡ next = ground arith in rw (← same) (h, λ k. omega arith)
merge_entries-Raises source unsafe ((type, action) ∷ rest) target {next} h e =
    let (mid, first, later) =
      >>=-eq-ok (merge_action target type action source unsafe) (merge_entries source unsafe rest)
        e in
    let (valid, one) = merge_action-Merged target type action source unsafe h first in
    let (final, all) = merge_entries-Raises source unsafe rest mid valid later in
    (final, λ k. step k (strength_at k mid) (Bool-cases (str_eq type k)) (one k) (all k))
  where
    step :
        (k : String) (mid : ℕ)
        → (str_eq type k ≡ true) ⊎ (str_eq type k ≡ false)
        → mid ≡ (
            if str_eq type k
            then max (strength_at k target) (rank action)
            else strength_at k target)
        → strength_at k next ≡ max mid (demand k rest)
        → strength_at k next
          ≡ max
              (strength_at k target)
              (max (if str_eq type k then rank action else 0) (demand k rest))
    step k mid (inl e) p q = rw e (let p' = rw e at p in omega arith)
    step k mid (inr e) p q = rw e (let p' = rw e at p in omega arith)
