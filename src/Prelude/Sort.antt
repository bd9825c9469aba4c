-- ===== src/Prelude/Sort.antt =====
-- JavaScript's stable `Array.prototype.sort` under a comparison: insertion from the right, where
-- an element goes in front of those that it does not come after.
use haechi.Prelude.Tests.{if◌then◌else◌, Bool-cases}
use haechi.Prelude.Lists.{All, In}
use mathlib.Core.Path.{◌≡◌, refl}
use mathlib.Core.Bool.{Bool, true, false}
use mathlib.Core.Logic.{◌↔◌, inl, inr}
use mathlib.Core.List.{List, [], ◌∷◌, Perm}
use mathlib.Core.List.Perm

-- `le x y` says that `x` may stand before `y`: the comparator returns at most 0.
module _ {ℓ} {A : Type ℓ} (le : A → A → Bool) where
  unfoldable pub insert_sorted : A → List A → List A
  insert_sorted a [] = a ∷ []
  insert_sorted a (x ∷ xs) = if le a x then a ∷ x ∷ xs else x ∷ insert_sorted a xs

  unfoldable pub sort : List A → List A
  unfolding insert_sorted
  sort [] = []
  sort (x ∷ xs) = insert_sorted x (sort xs)

  abbrev pub IsSorted : List A → Type ℓ
  IsSorted [] = Unit
  IsSorted (x ∷ xs) = All (λ y. le x y ≡ true) xs × IsSorted xs

  insert_sorted-perm : (a : A) (xs : List A) → Perm (insert_sorted a xs) (a ∷ xs)
  unfolding insert_sorted
  insert_sorted-perm a [] = Perm.refl _
  insert_sorted-perm a (x ∷ xs) = elim (Bool-cases (le a x)) [
    | inl e ↦ rw e (Perm.refl _)
    | inr e ↦ rw e (Perm.trans (Perm.cons x (insert_sorted-perm a xs)) (Perm.swap a x xs))
  ]

  -- Sorting keeps the elements.
  pub sort-perm : (xs : List A) → Perm (sort xs) xs
  unfolding sort
  sort-perm [] = Perm.refl _
  sort-perm (x ∷ xs) = Perm.trans (insert_sorted-perm x (sort xs)) (Perm.cons x (sort-perm xs))

module _ {ℓ κ} {A : Type ℓ} (le : A → A → Bool) (P : A → Type κ) where
  insert_sorted-All : (a : A) (xs : List A) → P a → All P xs → All P (insert_sorted le a xs)
  unfolding insert_sorted
  insert_sorted-All a [] p ps = (p, tt)
  insert_sorted-All a (x ∷ xs) p ps = elim (Bool-cases (le a x)) [
    | inl e ↦ rw e (p, ps)
    | inr e ↦ rw e (ps.0, insert_sorted-All a xs p ps.1)
  ]

  pub sort-All : (xs : List A) → All P xs → All P (sort le xs)
  unfolding sort
  sort-All [] ps = tt
  sort-All (x ∷ xs) ps = insert_sorted-All x (sort le xs) ps.0 (sort-All xs ps.1)

module _ {ℓ} {A : Type ℓ} (le : A → A → Bool) (total : (x y : A) → le x y ≡ false → le y x ≡ true)
    (trans : (x y z : A) → le x y ≡ true → le y z ≡ true → le x z ≡ true) where
  le-All :
      (a x : A) (xs : List A)
      → le a x ≡ true
      → All (λ y. le x y ≡ true) xs
      → All (λ y. le a y ≡ true) xs
  le-All a x [] h ps = tt
  le-All a x (y ∷ xs) h ps = (trans a x y h ps.0, le-All a x xs h ps.1)

  insert_sorted-IsSorted :
      (a : A) (xs : List A) → IsSorted le xs → IsSorted le (insert_sorted le a xs)
  unfolding insert_sorted
  insert_sorted-IsSorted a [] s = (tt, tt)
  insert_sorted-IsSorted a (x ∷ xs) s = elim (Bool-cases (le a x)) [
    | inl e ↦ rw e ((e, le-All a x xs e s.0), s)
    | inr e ↦ rw e (
      insert_sorted-All le (λ y. le x y ≡ true) a xs (total a x e) s.0,
      insert_sorted-IsSorted a xs s.1,
    )
  ]

  -- Sorting sorts, under a total and transitive comparison.
  pub sort-IsSorted : (xs : List A) → IsSorted le (sort le xs)
  unfolding sort
  sort-IsSorted [] = tt
  sort-IsSorted (x ∷ xs) = insert_sorted-IsSorted x (sort le xs) (sort-IsSorted xs)

module _ {ℓ} {A : Type ℓ} (le : A → A → Bool) where
  insert_sorted-front :
      (a : A) (xs : List A) → All (λ y. le a y ≡ true) xs → insert_sorted le a xs ≡ a ∷ xs
  unfolding insert_sorted
  insert_sorted-front a [] h = refl
  insert_sorted-front a (x ∷ xs) h = rw h.0 refl

  -- A sorted list is left as it is.
  pub sort_of_IsSorted : (xs : List A) → IsSorted le xs → sort le xs ≡ xs
  unfolding sort
  sort_of_IsSorted [] s = refl
  sort_of_IsSorted (x ∷ xs) s = rw (sort_of_IsSorted xs s.1) (insert_sorted-front x xs s.0)

module _ {A : Type 0} (le : A → A → Bool) where
  insert_sorted-In : (a b : A) (xs : List A) → In b (a ∷ xs) ↔ In b (insert_sorted le a xs)
  unfolding insert_sorted
  insert_sorted-In a b [] = (λ m. m, λ m. m)
  insert_sorted-In a b (x ∷ xs) =
      let (to, from) = insert_sorted-In a b xs in
      elim (Bool-cases (le a x)) [
        | inl e ↦ rw e (λ m. m, λ m. m)
        | inr e ↦ rw e (into to, out from)
      ]
    where
      into :
          (In b (a ∷ xs) → In b (insert_sorted le a xs))
          → In b (a ∷ x ∷ xs)
          → In b (x ∷ insert_sorted le a xs)
      into to (inl e) = inr (to (inl e))
      into to (inr (inl e)) = inl e
      into to (inr (inr m)) = inr (to (inr m))

      later : In b (a ∷ xs) → In b (a ∷ x ∷ xs)
      later (inl e) = inl e
      later (inr m) = inr (inr m)

      out :
          (In b (insert_sorted le a xs) → In b (a ∷ xs))
          → In b (x ∷ insert_sorted le a xs)
          → In b (a ∷ x ∷ xs)
      out from (inl e) = inr (inl e)
      out from (inr m) = later (from m)

  -- Sorting keeps every element and makes none up.
  pub sort-In : (b : A) (xs : List A) → In b xs ↔ In b (sort le xs)
  unfolding sort
  sort-In b [] = (λ m. m, λ m. m)
  sort-In b (x ∷ xs) =
      let (to, from) = sort-In b xs in
      let (to', from') = insert_sorted-In x b (sort le xs) in
      (λ m. to' (down xs (sort le xs) to m), λ m. down (sort le xs) xs from (from' m))
    where
      down : (ys zs : List A) → (In b ys → In b zs) → In b (x ∷ ys) → In b (x ∷ zs)
      down ys zs f (inl e) = inl e
      down ys zs f (inr m) = inr (f m)
