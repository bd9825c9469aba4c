-- ===== src/Audit/Chain/Anchoring.antt =====
-- What one line of the anchor stream adds to the anchors that the verifier reads.
use haechi.Prelude.{
  ℕ, ◌%◌, ◌≤◌, ◌<◌, max, ◌≡◌, ◌≢◌, refl, ◌∙◌, inl, inr, false, Bool-cases, Option, none, some, List,
  arith, ◌==◌, if◌then◌else◌, Text, text_eq, text_eq_iff, Json, get, member, ok,
}
use haechi.Audit.Chain.Records.{
  Line, Anchors, hash_at, set_hash, attest, add_anchor, add_anchors, read_anchors,
}
use haechi.Audit.Chain.{differs, contradicts, write_anchor, anchor_line}
use haechi.Audit.Chain.Honest.{add_anchors-append, hash_at-set_hash}

-- The anchors after an append, if `every` says so.
unfoldable pub anchored : Option ℕ → ℕ → Text → Anchors → Anchors
anchored none n h a = a
anchored (some every) n h a =
    if n % every == 0
    then record { by_sequence = set_hash n h a.by_sequence; last_sequence = max a.last_sequence n }
    else a

anchor_line-attest :
    (a : Anchors) (n : ℕ) (h : Text) (t : Option Json)
    → add_anchor a (anchor_line n h t)
      ≡ ok
          record { by_sequence = set_hash n h a.by_sequence; last_sequence = max a.last_sequence n }
unfolding add_anchor get text_eq member attest
anchor_line-attest a n h t = refl

pub read-write_anchor :
    (every : Option ℕ) (n : ℕ) (h : Text) (t : Option Json) (stream : List Line) (a : Anchors)
    → read_anchors stream ≡ ok a
    → read_anchors (write_anchor every n h t stream) ≡ ok (anchored every n h a)
unfolding anchored add_anchors read_anchors
read-write_anchor none n h t stream a e = e
read-write_anchor (some every) n h t stream a e = elim (Bool-cases (n % every == 0)) [
  | inl p ↦ rw p (add_anchors-append _ a stream (anchor_line n h t) e ∙ anchor_line-attest a n h t)
  | inr p ↦ rw p e
]

pub anchored-hash_at :
    (every : Option ℕ) (k n : ℕ) (h : Text) (a : Anchors)
    → k ≢ n
    → hash_at k (anchored every n h a).by_sequence ≡ hash_at k a.by_sequence
unfolding anchored
anchored-hash_at none k n h a d = refl
anchored-hash_at (some every) k n h a d = elim (Bool-cases (n % every == 0)) [
  | inl p ↦ rw (p, hash_at-set_hash k n h a.by_sequence) (other k n (some h) _ d)
  | inr p ↦ rw p refl
]
  where
    other : (k n : ℕ) (x y : Option Text) → k ≢ n → (if n == k then x else y) ≡ y
    other k n x y d = ground arith

differs_self :
    (n : ℕ) (h : Text) (o : Option Text) → differs h (if n == n then some h else o) ≡ false
unfolding differs
differs_self n h o = ground (arith, text_eq_iff h h)

pub anchored-contradicts :
    (every : Option ℕ) (n : ℕ) (h : Text) (a : Anchors)
    → hash_at n a.by_sequence ≡ none
    → contradicts (some (anchored every n h a)) n h ≡ false
unfolding anchored contradicts differs
anchored-contradicts none n h a e = rw e refl
anchored-contradicts (some every) n h a e = elim (Bool-cases (n % every == 0)) [
  | inl p ↦ rw (p, hash_at-set_hash n n h a.by_sequence) (differs_self n h _)
  | inr p ↦ rw (p, e) refl
]

pub anchored-last_sequence :
    (every : Option ℕ) (n : ℕ) (h : Text) (a : Anchors)
    → a.last_sequence < n
    → (anchored every n h a).last_sequence ≤ n
unfolding anchored
anchored-last_sequence none n h a l = omega arith
anchored-last_sequence (some every) n h a l = ground arith
