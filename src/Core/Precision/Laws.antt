-- ===== src/Core/Precision/Laws.antt =====
-- What the precision controls keep and count.
use haechi.Prelude.{
  ℕ, ◌+◌, String, ◌≡◌, refl, sym, ap, ◌∙◌, Bool, true, false, not, ◌&&◌, ◌||◌, inl, inr, Option,
  List, [], ◌∷◌, ◌++◌, append_assoc, append-nil, arith, str_eq, eq_iff, if◌then◌else◌, Bool-cases,
  filter, length, In, or_default, Dict, lookup, lookup-insert,
}
use mathlib.Core.Bool.{and-eq-true_iff}
use haechi.Core.{Detection}
use haechi.Core.Precision.{
  Allowlist, is_hard_block, is_allowlisted, is_low, Controlled, bump, control, control_all,
  apply_precision_controls,
}

module _ (min_confidence : ℕ) (allowlist : Option Allowlist) where
  -- The three fates of a detection.
  abbrev pub is_suppressed : Detection → Bool
  is_suppressed d = not (is_hard_block d.type) && is_allowlisted d allowlist

  abbrev pub is_dropped : Detection → Bool
  is_dropped d =
      not (is_hard_block d.type)
      && not (is_allowlisted d allowlist)
      && is_low d.confidence min_confidence

  abbrev pub is_kept : Detection → Bool
  is_kept d =
      is_hard_block d.type
      || not (is_allowlisted d allowlist) && not (is_low d.confidence min_confidence)

-- How many of the detections pass a test and have a type.
abbrev pub of_type : (Detection → Bool) → String → List Detection → ℕ
of_type p type ds = length (filter (λ d. p d && str_eq d.type type) ds)

abbrev pub count_of : String → Dict ℕ → ℕ
count_of type m = or_default (lookup type m) 0

count_of-bump :
    (type t : String) (m : Dict ℕ)
    → count_of t (bump type m) ≡ (if str_eq type t then count_of t m + 1 else count_of t m)
unfolding bump
count_of-bump type t m = elim (Bool-cases (str_eq type t)) [
  | inl e ↦
      rw (lookup-insert type t (count_of type m + 1) m, e)
        (ap (λ (s : String). count_of s m + 1) ((eq_iff type t).0 e))
  | inr e ↦ rw (lookup-insert type t (count_of type m + 1) m, e) refl
]

-- What the loop adds to a state, for each of its parts.
pub record Tally (min_confidence : ℕ) (allowlist : Option Allowlist) (ds : List Detection)
    (before after : Controlled) : Type 0 where
  pub kept : after.kept ≡ before.kept ++ filter (is_kept min_confidence allowlist) ds
  pub suppressed :
      after.audit.suppressed_count
      ≡ before.audit.suppressed_count + length (filter (is_suppressed min_confidence allowlist) ds)
  pub dropped :
      after.audit.dropped_count
      ≡ before.audit.dropped_count + length (filter (is_dropped min_confidence allowlist) ds)
  pub suppressed_by_type :
      (t : String)
      → count_of t after.audit.suppressed_by_type
        ≡ count_of t before.audit.suppressed_by_type
          + of_type (is_suppressed min_confidence allowlist) t ds
  pub dropped_by_type :
      (t : String)
      → count_of t after.audit.dropped_by_type
        ≡ count_of t before.audit.dropped_by_type
          + of_type (is_dropped min_confidence allowlist) t ds

module _ (min_confidence : ℕ) (allowlist : Option Allowlist) where
  control-Tally :
      (d : Detection) (c : Controlled)
      → Tally min_confidence allowlist (d ∷ []) c (control min_confidence allowlist d c)
  unfolding control
  control-Tally d c = record {
    kept = ground (arith, append-nil c.kept);
    suppressed = ground arith;
    dropped = ground arith;
    suppressed_by_type = λ t. ground (arith, count_of-bump d.type t c.audit.suppressed_by_type);
    dropped_by_type = λ t. ground (arith, count_of-bump d.type t c.audit.dropped_by_type);
  }

  filter_cons :
      (p : Detection → Bool) (d : Detection) (ds : List Detection)
      → filter p (d ∷ ds) ≡ filter p (d ∷ []) ++ filter p ds
  filter_cons p d ds = ground arith

  length-filter_cons :
      (p : Detection → Bool) (d : Detection) (ds : List Detection)
      → length (filter p (d ∷ ds)) ≡ length (filter p (d ∷ [])) + length (filter p ds)
  length-filter_cons p d ds = ground arith

  -- The loop keeps, in order, what `is_kept` says, and counts the rest by fate and by type.
  control_all-Tally :
      (ds : List Detection) (c : Controlled)
      → Tally min_confidence allowlist ds c (control_all min_confidence allowlist ds c)
  unfolding control_all
  control_all-Tally [] c = record {
    kept = sym (append-nil c.kept);
    suppressed = omega arith;
    dropped = omega arith;
    suppressed_by_type = λ t. omega arith;
    dropped_by_type = λ t. omega arith;
  }
  control_all-Tally (d ∷ ds) c =
      let keeps = is_kept min_confidence allowlist in
      let next = control min_confidence allowlist d c in
      let one = control-Tally d c in
      let rest = control_all-Tally ds next in
      record {
        kept =
            rest.kept
            ∙ ap (λ k. k ++ filter keeps ds) one.kept
            ∙ append_assoc c.kept (filter keeps (d ∷ [])) (filter keeps ds)
            ∙ ap (◌++◌ c.kept) (sym (filter_cons keeps d ds));
        suppressed = omega (
          arith,
          one.suppressed,
          rest.suppressed,
          length-filter_cons (is_suppressed min_confidence allowlist) d ds,
        );
        dropped = omega (
          arith,
          one.dropped,
          rest.dropped,
          length-filter_cons (is_dropped min_confidence allowlist) d ds,
        );
        suppressed_by_type = λ t. omega (
          arith,
          one.suppressed_by_type t,
          rest.suppressed_by_type t,
          length-filter_cons (λ x. is_suppressed min_confidence allowlist x && str_eq x.type t) d
              ds,
        );
        dropped_by_type = λ t. omega (
          arith,
          one.dropped_by_type t,
          rest.dropped_by_type t,
          length-filter_cons (λ x. is_dropped min_confidence allowlist x && str_eq x.type t) d ds,
        );
      }

  fates :
      (d : Detection)
      → length (filter (is_kept min_confidence allowlist) (d ∷ []))
          + length (filter (is_suppressed min_confidence allowlist) (d ∷ []))
          + length (filter (is_dropped min_confidence allowlist) (d ∷ []))
        ≡ 1
  fates d = ground arith

  fates_all :
      (ds : List Detection)
      → length (filter (is_kept min_confidence allowlist) ds)
          + length (filter (is_suppressed min_confidence allowlist) ds)
          + length (filter (is_dropped min_confidence allowlist) ds)
        ≡ length ds
  fates_all [] = omega arith
  fates_all (d ∷ ds) = omega (
    arith,
    fates d,
    fates_all ds,
    length-filter_cons (is_kept min_confidence allowlist) d ds,
    length-filter_cons (is_suppressed min_confidence allowlist) d ds,
    length-filter_cons (is_dropped min_confidence allowlist) d ds,
  )

  -- The controls keep, in order, exactly the detections of a hard-block type and those that are
  -- neither allowlisted nor below the threshold, and every other detection is counted once, under
  -- its own type, as suppressed if it is allowlisted and as dropped if not.
  pub apply_precision_controls_partition :
      (ds : List Detection)
      → let r = apply_precision_controls min_confidence allowlist ds in
        (r.kept ≡ filter (is_kept min_confidence allowlist) ds)
        × (length r.kept + r.audit.suppressed_count + r.audit.dropped_count ≡ length ds)
        × ((t : String)
            → count_of t r.audit.suppressed_by_type
              ≡ of_type (is_suppressed min_confidence allowlist) t ds)
        × ((t : String)
            → count_of t r.audit.dropped_by_type
              ≡ of_type (is_dropped min_confidence allowlist) t ds)
  unfolding apply_precision_controls lookup
  apply_precision_controls_partition ds =
      let t = control_all-Tally ds _ in
      (
        t.kept,
        omega (arith, ap length t.kept, t.suppressed, t.dropped, fates_all ds),
        λ k. omega (arith, t.suppressed_by_type k),
        λ k. omega (arith, t.dropped_by_type k),
      )

  filter-In :
      (p : Detection → Bool) (d : Detection) (ds : List Detection)
      → In d ds
      → p d ≡ true
      → In d (filter p ds)
  filter-In p d [] m h = m
  filter-In p d (x ∷ ds) (inl e) h = rw (← e) (rw h (inl refl))
  filter-In p d (x ∷ ds) (inr m) h = elim (Bool-cases (p x)) [
    | inl k ↦ rw k (inr (filter-In p d ds m h))
    | inr k ↦ rw k (filter-In p d ds m h)
  ]

  of_type-hard :
      (p : Detection → Bool) (t : String) (ds : List Detection)
      → ((d : Detection) → p d ≡ true → is_hard_block d.type ≡ false)
      → is_hard_block t ≡ true
      → of_type p t ds ≡ 0
  of_type-hard p t [] soft h = refl
  of_type-hard p t (d ∷ ds) soft h = elim (Bool-cases (p d && str_eq d.type t)) [
    | inl e ↦
        let (chosen, same) = (and-eq-true_iff _ _).0 e in
        let h' : is_hard_block d.type ≡ true = rw ((eq_iff d.type t).0 same) h in
        let bad : true ≡ false = sym h' ∙ soft d chosen in cc
    | inr e ↦ rw e (of_type-hard p t ds soft h)
  ]

  -- Neither the allowlist nor the threshold touches a hard-block type: each of its detections is
  -- kept, and nothing of the type is counted as suppressed or dropped.
  pub apply_precision_controls-hard_block :
      (ds : List Detection) (d : Detection)
      → In d ds
      → is_hard_block d.type ≡ true
      → let r = apply_precision_controls min_confidence allowlist ds in
        In d r.kept
        × (count_of d.type r.audit.suppressed_by_type ≡ 0)
        × (count_of d.type r.audit.dropped_by_type ≡ 0)
  apply_precision_controls-hard_block ds d m h =
      let (kept, _, suppressed, dropped) = apply_precision_controls_partition ds in
      (
        rw kept (filter-In (is_kept min_confidence allowlist) d ds m (rw h refl)),
        suppressed d.type
            ∙ of_type-hard (is_suppressed min_confidence allowlist) d.type ds (λ x e. ground arith)
                h,
        dropped d.type
            ∙ of_type-hard (is_dropped min_confidence allowlist) d.type ds (λ x e. ground arith) h,
      )
