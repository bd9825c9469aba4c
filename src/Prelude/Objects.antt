-- ===== src/Prelude/Objects.antt =====
-- A JavaScript object or Map with text keys, as an association list in insertion order. `insert`
-- keeps the place of a key that is there and appends a new one, as an assignment does.
use Prim.Native.String.{String}
use mathlib.Core.Path.{◌≡◌, refl, subst}
use mathlib.Core.Logic.{inl, inr}
use mathlib.Core.Option.{Option, none, some}
use mathlib.Core.List.{List, [], ◌∷◌}
use native.Mathlib.Omega.{arith}
use text.Mathlib.Text.{◌==◌ as str_eq}
use text.Mathlib.TextEquality.{eq_iff}
use haechi.Prelude.Tests.{if◌then◌else◌, Bool-cases}

abbrev pub Dict {ℓ} : Type ℓ → Type ℓ
Dict V = List (String × V)

module _ {ℓ} {V : Type ℓ} where
  unfoldable pub lookup : String → Dict V → Option V
  lookup k [] = none
  lookup k ((j, v) ∷ m) = if str_eq j k then some v else lookup k m

  unfoldable pub insert : String → V → Dict V → Dict V
  insert k v [] = (k, v) ∷ []
  insert k v ((j, w) ∷ m) = if str_eq j k then (j, v) ∷ m else (j, w) ∷ insert k v m

  unfoldable pub remove : String → Dict V → Dict V
  remove k [] = []
  remove k ((j, w) ∷ m) = if str_eq j k then remove k m else (j, w) ∷ remove k m

  -- What a read finds after a write, at the key written and at any other.
  pub lookup-insert :
      (key read : String) (new : V) (object : Dict V)
      → lookup read (insert key new object)
        ≡ (if str_eq key read then some new else lookup read object)
  unfolding lookup insert
  lookup-insert key read new [] = refl
  lookup-insert key read new ((first, old) ∷ object) = ground (
    arith,
    lookup-insert key read new object,
    eq_iff first read,
    eq_iff first key,
    eq_iff key read,
  )

  pub lookup-remove :
      (k j : String) (m : Dict V)
      → lookup j (remove k m) ≡ (if str_eq k j then none else lookup j m)
  unfolding lookup remove
  lookup-remove k j [] = ground (arith, eq_iff k j)
  lookup-remove k j ((i, w) ∷ m) =
      ground (arith, eq_iff k j, eq_iff i k, eq_iff i j, lookup-remove k j m)

  -- `{ ...base, ...over }`
  unfoldable pub spread : Dict V → Dict V → Dict V
  spread base [] = base
  spread base ((k, v) ∷ over) = spread (insert k v base) over

  -- The keys of an object are distinct.
  abbrev pub HasDistinctKeys : Dict V → Type ℓ
  HasDistinctKeys [] = Unit
  HasDistinctKeys ((k, v) ∷ m) = (lookup k m ≡ none) × HasDistinctKeys m

  abbrev pub first_of : Option V → Option V → Option V
  first_of none b = b
  first_of (some v) b = some v

  lookup-spread_step :
      (k j : String) (v : V) (base over : Dict V)
      → lookup j over ≡ none
      → first_of (lookup k over) (if str_eq j k then some v else lookup k base)
        ≡ first_of (if str_eq j k then some v else lookup k over) (lookup k base)
  lookup-spread_step k j v base over d = elim (Bool-cases (str_eq j k)) [
    | inl e ↦
        let gone : lookup k over ≡ none = subst (λ i. lookup i over ≡ none) ((eq_iff j k).0 e) d in
        rw (e, gone) refl
    | inr e ↦ rw e refl
  ]

  -- A key of the spread object is the second object's, where that has it.
  pub lookup-spread :
      (k : String) (base over : Dict V)
      → HasDistinctKeys over
      → lookup k (spread base over) ≡ first_of (lookup k over) (lookup k base)
  unfolding spread lookup
  lookup-spread k base [] d = refl
  lookup-spread k base ((j, v) ∷ over) d =
      rw (lookup-spread k (insert j v base) over d.1, lookup-insert j k v base)
        (lookup-spread_step k j v base over d.0)
