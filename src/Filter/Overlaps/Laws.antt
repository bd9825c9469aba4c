-- ===== src/Filter/Overlaps/Laws.antt =====
-- What is accepted is disjoint, and covers the start of all that is not.
use haechi.Prelude.{
  ℕ, ◌≤◌, ◌<◌, ◌≡◌, refl, true, false, ◌⊎◌, inl, inr, List, [], ◌∷◌, arith, ltb, ltb→lt, Bool-cases,
  In, In-cons,
}
use haechi.Prelude.Sort.{sort, sort-In, IsSorted, sort-IsSorted}
use haechi.Core.{Detection}
use haechi.Filter.Overlaps.{in_order, accept, remove_overlaps}

-- Each detection starts where the one before it has ended, or later.
abbrev pub IsDisjoint : ℕ → List Detection → Type 0
IsDisjoint last_end [] = Unit
IsDisjoint last_end (d ∷ ds) = (last_end ≤ d.start) × IsDisjoint d.end ds

accept-IsDisjoint : (last_end : ℕ) (ds : List Detection) → IsDisjoint last_end (accept last_end ds)
unfolding accept
accept-IsDisjoint last_end [] = tt
accept-IsDisjoint last_end (d ∷ ds) = elim (Bool-cases (ltb d.start last_end)) [
  | inl e ↦ rw e (accept-IsDisjoint last_end ds)
  | inr e ↦ rw e (ground arith, accept-IsDisjoint d.end ds)
]

-- A detection is one of the accepted, or starts in one of them.
abbrev pub Covered : List Detection → Detection → Type 0
Covered accepted d =
    (a : Detection) × In a accepted × (a.start ≤ d.start) × ((d ≡ a) ⊎ (d.start < a.end))

Covered-cons : (x d : Detection) (ds : List Detection) → Covered ds d → Covered (x ∷ ds) d
Covered-cons x d ds (a, m, le, here) = (a, inr m, le, here)

start-le : (x y : Detection) → in_order x y ≡ true → x.start ≤ y.start
start-le x y h = ground arith

accept-Covered :
    (before : Detection) (ds : List Detection)
    → IsSorted in_order (before ∷ ds)
    → (d : Detection) → In d ds
    → Covered (before ∷ accept before.end ds) d
unfolding accept
accept-Covered before [] s d m = absurd m
accept-Covered before (x ∷ ds) (first, s) d (inl e) = elim (Bool-cases (ltb x.start before.end)) [
  | inl inside ↦
      rw (inside, e) (before, inl refl, start-le before x first.0, inr (ltb→lt _ _ inside))
  | inr after ↦ rw (after, e) (x, inr (inl refl), omega arith, inl refl)
]
accept-Covered before (x ∷ ds) (first, s) d (inr m) = elim (Bool-cases (ltb x.start before.end)) [
  | inl inside ↦ rw inside (accept-Covered before ds (first.1, s.1) d m)
  | inr after ↦ rw after (Covered-cons before d (x ∷ accept x.end ds) (accept-Covered x ds s d m))
]

in_order_total : (x y : Detection) → in_order x y ≡ false → in_order y x ≡ true
in_order_total x y h = ground arith

in_order_trans :
    (x y z : Detection) → in_order x y ≡ true → in_order y z ≡ true → in_order x z ≡ true
in_order_trans x y z h k = ground arith

sorted-Covered :
    (ds : List Detection)
    → IsSorted in_order ds
    → (d : Detection) → In d ds
    → Covered (accept 0 ds) d
unfolding accept
sorted-Covered [] s d m = absurd m
sorted-Covered (x ∷ ds) s d m = let first : ltb x.start 0 ≡ false = ground arith in rw first (at m)
  where
    at : In d (x ∷ ds) → Covered (x ∷ accept x.end ds) d
    at (inl e) = rw e (x, inl refl, omega arith, inl refl)
    at (inr m) = accept-Covered x ds s d m

accept-In :
    (last_end : ℕ) (a : Detection) (ds : List Detection) → In a (accept last_end ds) → In a ds
unfolding accept
accept-In last_end a [] m = m
accept-In last_end a (d ∷ ds) m = elim (Bool-cases (ltb d.start last_end)) [
  | inl e ↦ inr (accept-In last_end a ds (rw e at m))
  | inr e ↦ In-cons a d (accept d.end ds) ds (accept-In d.end a ds) (rw e at m)
]

-- What `removeOverlaps` leaves are detections of the input, in order and with no two overlapping,
-- and every detection of the input is among them or starts inside one of them.
pub remove_overlaps_covers :
    (ds : List Detection)
    → IsDisjoint 0 (remove_overlaps ds)
      × ((d : Detection) → In d (remove_overlaps ds) → In d ds)
      × ((d : Detection) → In d ds → Covered (remove_overlaps ds) d)
unfolding remove_overlaps
remove_overlaps_covers ds =
    let sorted = sort-IsSorted in_order in_order_total in_order_trans ds in
    (
      accept-IsDisjoint 0 (sort in_order ds),
      λ d m. (sort-In in_order d ds).1 (accept-In 0 d (sort in_order ds) m),
      λ d m. sorted-Covered (sort in_order ds) sorted d ((sort-In in_order d ds).0 m),
    )
