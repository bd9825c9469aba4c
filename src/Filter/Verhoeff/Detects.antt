-- ===== src/Filter/Verhoeff/Detects.antt =====
-- The mistakes that the Verhoeff check detects, from what its two tables satisfy.
use haechi.Prelude.{
  ℕ, ◌+◌, ◌%◌, ◌<◌, ◌≡◌, sym, ap, ◌∙◌, ◌≢◌, true, false, inl, inr, List, [], ◌∷◌, ◌++◌, arith,
  ==_iff, Bool-cases, All, append_assoc,
}
use mathlib.Core.List.{reverse, reverse-append, reverse-cons}
use haechi.Filter.Verhoeff.{compose, permute, verhoeff_loop, verhoeff_valid}
use haechi.Filter.Verhoeff.Tables.{
  compose-lt, permute-lt, compose_inj_right, compose_inj_left, compose_assoc, permute_inj, swap_inj,
}

abbrev pub AreDigits : List ℕ → Type 0
AreDigits ds = All (λ d. d < 10) ds

loop-lt : (c i : ℕ) (ds : List ℕ) → c < 10 → AreDigits ds → verhoeff_loop c i ds < 10
unfolding verhoeff_loop
loop-lt c i [] hc h = hc
loop-lt c i (d ∷ ds) hc h =
    loop-lt (compose c (permute (i % 8) d)) (i + 1) ds
      (compose-lt c (permute (i % 8) d) hc (permute-lt i d h.0)) h.1

loop_inj :
    (c c' i : ℕ) (ds : List ℕ)
    → c < 10
    → c' < 10
    → AreDigits ds
    → verhoeff_loop c i ds ≡ verhoeff_loop c' i ds
    → c ≡ c'
unfolding verhoeff_loop
loop_inj c c' i [] hc hc' h e = e
loop_inj c c' i (d ∷ ds) hc hc' h e =
    let p = permute-lt i d h.0 in
    compose_inj_left (permute (i % 8) d) c c' p hc hc' (
      loop_inj (compose c (permute (i % 8) d)) (compose c' (permute (i % 8) d)) (i + 1) ds
        (compose-lt c _ hc p) (compose-lt c' _ hc' p) h.1 e)

-- Two lists of digits that agree but for one digit, or but for the order of two neighbours.
loop-substitution :
    (c i : ℕ) (before after : List ℕ) (d e : ℕ)
    → c < 10
    → AreDigits before
    → AreDigits after
    → d < 10
    → e < 10
    → verhoeff_loop c i (before ++ d ∷ after) ≡ verhoeff_loop c i (before ++ e ∷ after)
    → d ≡ e
unfolding verhoeff_loop
loop-substitution c i [] after d e hc hb ha hd he same =
    let pd = permute-lt i d hd in
    let pe = permute-lt i e he in
    permute_inj i d e hd he (
      compose_inj_right c _ _ hc pd pe
        (loop_inj _ _ (i + 1) after (compose-lt c _ hc pd) (compose-lt c _ hc pe) ha same))
loop-substitution c i (x ∷ before) after d e hc hb ha hd he same =
    loop-substitution (compose c (permute (i % 8) x)) (i + 1) before after d e
      (compose-lt c _ hc (permute-lt i x hb.0)) hb.1 ha hd he same

loop-transposition :
    (c i : ℕ) (before after : List ℕ) (d e : ℕ)
    → c < 10
    → AreDigits before
    → AreDigits after
    → d < 10
    → e < 10
    → verhoeff_loop c i (before ++ d ∷ e ∷ after) ≡ verhoeff_loop c i (before ++ e ∷ d ∷ after)
    → d ≡ e
unfolding verhoeff_loop
loop-transposition c i [] after d e hc hb ha hd he same =
    let p = permute-lt i d hd in
    let q = permute-lt (i + 1) e he in
    let p' = permute-lt i e he in
    let q' = permute-lt (i + 1) d hd in
    let pq = compose-lt _ _ p q in
    let pq' = compose-lt _ _ p' q' in
    swap_inj i d e hd he (
      compose_inj_right c _ _ hc pq pq' (
        sym (compose_assoc c _ _ hc p q)
        ∙ loop_inj _ _ (i + 1 + 1) after (compose-lt _ _ (compose-lt c _ hc p) q)
            (compose-lt _ _ (compose-lt c _ hc p') q') ha same
        ∙ compose_assoc c _ _ hc p' q'))
loop-transposition c i (x ∷ before) after d e hc hb ha hd he same =
    loop-transposition (compose c (permute (i % 8) x)) (i + 1) before after d e
      (compose-lt c _ hc (permute-lt i x hb.0)) hb.1 ha hd he same

AreDigits-append : (xs ys : List ℕ) → AreDigits xs → AreDigits ys → AreDigits (xs ++ ys)
AreDigits-append [] ys h k = k
AreDigits-append (x ∷ xs) ys h k = (h.0, AreDigits-append xs ys h.1 k)

AreDigits-reverse : (xs : List ℕ) → AreDigits xs → AreDigits (reverse xs)
AreDigits-reverse [] h = tt
AreDigits-reverse (x ∷ xs) h =
    rw (reverse-cons x xs)
      (AreDigits-append (reverse xs) (x ∷ []) (AreDigits-reverse xs h.1) (h.0, tt))

reverse-middle :
    (xs ys zs : List ℕ) → reverse (xs ++ (ys ++ zs)) ≡ reverse zs ++ (reverse ys ++ reverse xs)
reverse-middle xs ys zs =
    reverse-append xs (ys ++ zs)
    ∙ ap (λ r. r ++ reverse xs) (reverse-append ys zs)
    ∙ append_assoc (reverse zs) (reverse ys) (reverse xs)

valid-loop : (ds : List ℕ) → verhoeff_valid ds ≡ true → verhoeff_loop 0 0 (reverse ds) ≡ 0
unfolding verhoeff_valid
valid-loop ds h = (==_iff _ _).0 h

both_valid :
    (before after : List ℕ) (xs ys : List ℕ)
    → verhoeff_valid (before ++ (xs ++ after)) ≡ true
    → verhoeff_valid (before ++ (ys ++ after)) ≡ true
    → verhoeff_loop 0 0 (reverse after ++ (reverse xs ++ reverse before))
      ≡ verhoeff_loop 0 0 (reverse after ++ (reverse ys ++ reverse before))
both_valid before after xs ys v w =
    sym (ap (verhoeff_loop 0 0) (reverse-middle before xs after))
    ∙ valid-loop (before ++ (xs ++ after)) v
    ∙ sym (valid-loop (before ++ (ys ++ after)) w)
    ∙ ap (verhoeff_loop 0 0) (reverse-middle before ys after)

-- The Verhoeff check detects every mistake in a single digit and every exchange of two different
-- neighbours: if a list of digits is valid, the list with that one change is not.
pub verhoeff_valid_detects :
    (before after : List ℕ) (d e : ℕ)
    → AreDigits before
    → AreDigits after
    → d < 10
    → e < 10
    → d ≢ e
    → (verhoeff_valid (before ++ d ∷ after) ≡ true → verhoeff_valid (before ++ e ∷ after) ≡ false)
      × (verhoeff_valid (before ++ d ∷ e ∷ after) ≡ true
          → verhoeff_valid (before ++ e ∷ d ∷ after) ≡ false)
verhoeff_valid_detects before after d e hb ha hd he ne = (substitution, transposition)
  where
    rb : AreDigits (reverse before)
    rb = AreDigits-reverse before hb

    ra : AreDigits (reverse after)
    ra = AreDigits-reverse after ha

    substitution :
        verhoeff_valid (before ++ d ∷ after) ≡ true → verhoeff_valid (before ++ e ∷ after) ≡ false
    substitution v = elim (Bool-cases (verhoeff_valid (before ++ e ∷ after))) [
      | inr no_ ↦ no_
      | inl w ↦ absurd (
          ne (
            loop-substitution 0 0 (reverse after) (reverse before) d e (omega arith) ra rb hd he
              (both_valid before after (d ∷ []) (e ∷ []) v w)))
    ]

    transposition :
        verhoeff_valid (before ++ d ∷ e ∷ after) ≡ true
        → verhoeff_valid (before ++ e ∷ d ∷ after) ≡ false
    transposition v = elim (Bool-cases (verhoeff_valid (before ++ e ∷ d ∷ after))) [
      | inr no_ ↦ no_
      | inl w ↦ absurd (
          ne (
            sym (
              loop-transposition 0 0 (reverse after) (reverse before) e d (omega arith) ra rb he hd
                (both_valid before after (d ∷ e ∷ []) (e ∷ d ∷ []) v w))))
    ]
