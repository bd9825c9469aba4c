-- ===== src/Prelude/TextMaps.antt =====
-- A JavaScript object or Map whose keys are built by the program: an association list with `Text` keys.
use mathlib.Core.Path.{◌≡◌, refl}
use mathlib.Core.Option.{Option, none, some}
use mathlib.Core.List.{List, [], ◌∷◌}
use native.Mathlib.Omega.{arith}
use haechi.Prelude.Tests.{if◌then◌else◌}
use haechi.Prelude.Utf16.{Text, text_eq, text_eq_iff}

abbrev pub TextMap {ℓ} : Type ℓ → Type ℓ
TextMap V = List (Text × V)

module _ {ℓ} {V : Type ℓ} where
  unfoldable pub find : Text → TextMap V → Option V
  find k [] = none
  find k ((j, v) ∷ m) = if text_eq j k then some v else find k m

  unfoldable pub put : Text → V → TextMap V → TextMap V
  put k v [] = (k, v) ∷ []
  put k v ((j, w) ∷ m) = if text_eq j k then (j, v) ∷ m else (j, w) ∷ put k v m

  unfoldable pub erase : Text → TextMap V → TextMap V
  erase k [] = []
  erase k ((j, w) ∷ m) = let rest = erase k m in if text_eq j k then rest else (j, w) ∷ rest

  pub find-put :
      (k i : Text) (v : V) (m : TextMap V)
      → find i (put k v m) ≡ (if text_eq k i then some v else find i m)
  unfolding find put
  find-put k i v [] = refl
  find-put k i v ((j, w) ∷ m) =
      ground (arith, text_eq_iff k i, text_eq_iff j i, text_eq_iff j k, find-put k i v m)

  pub find-erase :
      (k i : Text) (m : TextMap V) → find i (erase k m) ≡ (if text_eq k i then none else find i m)
  unfolding find erase
  find-erase k i [] = ground (arith, text_eq_iff k i)
  find-erase k i ((j, w) ∷ m) =
      ground (arith, text_eq_iff k i, text_eq_iff j i, text_eq_iff j k, find-erase k i m)

  -- Every entry has the property.
  abbrev pub EveryEntry {κ} : (Text → V → Type κ) → TextMap V → Type κ
  EveryEntry P [] = Unit
  EveryEntry P ((k, v) ∷ m) = P k v × EveryEntry P m
