-- ===== src/Core/Transform/Mask.antt =====
-- What a masked text still shows.
use haechi.Prelude.{
  ℕ, ◌-◌, ◌≤◌, ◌<◌, ◌≡◌, refl, ap, true, false, ◌++◌, ◌⊎◌, inl, inr, arith, leb, le→leb, Bool-cases,
  length, length-append, length-take, length-drop, length-replicate, take, drop, max, Text,
}
use haechi.Core.Transform.{stars, mask_sensitive}

long_length :
    (v : Text)
    → leb (length v) 8 ≡ false
    → length (take 2 v ++ (stars (max 4 (length v - 4)) ++ drop (length v - 2) v)) ≡ length v
long_length v e =
    let n = length v in
    let big : 8 < n = ground arith in
    omega (
      arith,
      length-append (take 2 v) (stars (max 4 (n - 4)) ++ drop (n - 2) v),
      length-append (stars (max 4 (n - 4))) (drop (n - 2) v),
      length-take 2 v,
      length-drop (n - 2) v,
      length-replicate {A = ℕ} (max 4 (n - 4)) b'*',
    )

length-mask_sensitive : (v : Text) → length (mask_sensitive v) ≡ length v
unfolding mask_sensitive
length-mask_sensitive v = elim (Bool-cases (leb (length v) 8)) [
  | inl e ↦ rw e (length-replicate (length v) b'*')
  | inr e ↦ rw e (long_length v e)
]

-- Two texts of one length of which a mask shows the same: a short one nothing, a longer one its
-- first two and its last two code units.
abbrev pub ShownAlike : Text → Text → Type 0
ShownAlike v w =
    (length v ≤ 8) ⊎ ((take 2 v ≡ take 2 w) × (drop (length v - 2) v ≡ drop (length w - 2) w))

alike : (v w : Text) → length v ≡ length w → ShownAlike v w → mask_sensitive v ≡ mask_sensitive w
unfolding mask_sensitive
alike v w n (inl short) =
    let sv : leb (length v) 8 ≡ true = le→leb _ _ short in
    let sw : leb (length w) 8 ≡ true = le→leb _ _ (omega arith) in rw (sv, sw) (ap stars n)
alike v w n (inr (front, back)) = rw (n, front) (rw (← n) (rw back (rw n refl)))

-- A mask has the length of the text, and shows at most two code units at either end of a text
-- longer than eight, and none of a shorter one: texts of one length that agree there have one mask.
pub mask_sensitive_hides :
    (v w : Text)
    → length v ≡ length w
    → ShownAlike v w
    → (length (mask_sensitive v) ≡ length v) × (mask_sensitive v ≡ mask_sensitive w)
mask_sensitive_hides v w n h = (length-mask_sensitive v, alike v w n h)
