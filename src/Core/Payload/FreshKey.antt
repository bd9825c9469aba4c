-- ===== src/Core/Payload/FreshKey.antt =====
-- The loop for a free key ends: it finds a key that the object does not have.
use haechi.Prelude.{
  ℕ, zero, suc, ◌≤◌, ◌<◌, ◌≡◌, refl, sym, ap, ◌∙◌, inl, inr, true, false, Bool-cases, [], ◌∷◌, ◌++◌,
  arith, is_some, append-nil, Text, text_eq, text_eq_iff, Fields, stop, field, get, without,
}
use haechi.Audit.{decimal}
use haechi.Audit.Canonical.Numbers.{decimal_injective}
use haechi.Core.Payload.{has_own, numbered, numbered_key, field_count, free_key}

get-without : (j k : Text) (fs : Fields) → text_eq k j ≡ false → get j (without k fs) ≡ get j fs
unfolding get without
get-without j k stop n = refl
get-without j k (field i v fs) n =
    ground (arith, text_eq_iff i k, text_eq_iff i j, text_eq_iff k j, get-without j k fs n)

field_count-without :
    (k : Text) (fs : Fields)
    → has_own k fs ≡ true
    → suc (field_count (without k fs)) ≡ field_count fs
unfolding has_own get without
field_count-without k stop h = cc
field_count-without k (field i v fs) h = elim (Bool-cases (text_eq i k)) [
  | inl e ↦ rw e refl
  | inr e ↦ rw e (ap suc (field_count-without k fs (sym (rw e refl) ∙ h)))
]

append_cancel : (k s t : Text) → k ++ s ≡ k ++ t → s ≡ t
append_cancel [] s t h = h
append_cancel (c ∷ k) s t h = append_cancel k s t (tail h)
  where
    tail : {x y : Text} → ◌≡◌ {A = Text} (c ∷ x) (c ∷ y) → x ≡ y
    tail e = cc

numbered_injective : (k : Text) (m n : ℕ) → numbered k m ≡ numbered k n → m ≡ n
unfolding numbered
numbered_injective k m n h =
    (decimal_injective m n [] []
      (append-nil (decimal m)
        ∙ tail (append_cancel k (b'#' ∷ decimal m) (b'#' ∷ decimal n) h)
        ∙ sym (append-nil (decimal n)))
      tt tt).0
  where
    tail : {x y : Text} → ◌≡◌ {A = Text} (b'#' ∷ x) (b'#' ∷ y) → x ≡ y
    tail e = cc

numbered_other : (k : Text) (m n : ℕ) → m < n → text_eq (numbered k m) (numbered k n) ≡ false
numbered_other k m n l = elim (Bool-cases (text_eq (numbered k m) (numbered k n))) [
  | inl e ↦
      absurd
        (omega (arith, numbered_injective k m n ((text_eq_iff (numbered k m) (numbered k n)).0 e)))
  | inr e ↦ e
]

module _ (k : Text) (fs : Fields) where
  -- What is left holds the keys that the loop has not met.
  numbered_key_free :
      (fuel s : ℕ) (left : Fields)
      → field_count left ≤ fuel
      → ((t : ℕ) → s ≤ t → has_own (numbered k t) left ≡ has_own (numbered k t) fs)
      → has_own (numbered_key fuel s k fs) fs ≡ false
  unfolding numbered_key
  numbered_key_free zero s left l same = sym (same s (omega arith)) ∙ nothing left l (numbered k s)
    where
      nothing : (left : Fields) → field_count left ≤ 0 → (j : Text) → has_own j left ≡ false
      nothing stop l j = refl
      nothing (field i v fs) l j = absurd (omega arith)
  numbered_key_free (suc fuel) s left l same = elim (Bool-cases (has_own (numbered k s) fs)) [
    | inr e ↦ rw e e
    | inl e ↦
        let met = numbered k s in
        let was : has_own met left ≡ true = same s (omega arith) ∙ e in
        rw e (
          numbered_key_free fuel (suc s) (without met left)
            (omega (arith, field_count-without met left was))
            (λ t m.
              ap (λ o. is_some o)
                (get-without (numbered k t) met left (numbered_other k s t (omega arith)))
              ∙ same t (omega arith)))
  ]

  -- The key that a renamed member gets is one that the object does not have, whatever keys it has: the loop
  -- that appends numbers ends after at most as many turns as the object has members.
  pub free_key-has_own : has_own (free_key k fs) fs ≡ false
  unfolding free_key
  free_key-has_own = elim (Bool-cases (has_own k fs)) [
    | inr e ↦ rw e e
    | inl e ↦ rw e (numbered_key_free (field_count fs) 2 fs (omega arith) (λ t l. refl))
  ]
