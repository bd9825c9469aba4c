-- ===== src/Audit/Chain/Anchored.antt =====
-- What an anchor says of a log that verifies against it.
use haechi.Prelude.{
  ℕ, ◌+◌, ◌≤◌, ◌≡◌, refl, sym, subst, ap, ◌∙◌, ◌⊎◌, inl, inr, false, not, Bool-cases, Option, none,
  some, List, [], ◌∷◌, ◌++◌, arith, ltb, ◌==◌, ==_iff, if◌then◌else◌, Text, text_eq, text_eq_iff,
  Json, null, number, string, member, Result, ok, >>=-eq-ok,
}
use haechi.Audit.Chain.Records.{
  sequence_key, event_hash_key, Line, parsed, Fault, Anchors, hash_at, attest, add_anchor,
  add_anchors, read_anchors,
}
use haechi.Audit.Chain.{
  tail_truncation, Verdict, valid, invalid, Cursor, first_cursor, Step, stopped, running, differs,
  contradicts, conclude, verify_line, verify_lines, verify_audit_chain,
}
use haechi.Audit.Chain.Steps.{hash_in, verify_line-running, verify_lines-running}
use haechi.Audit.Chain.Honest.{verify_lines-anchors, hash_at-set_hash}
use haechi.Audit.Chain.Linked.{verify_lines-stopped}

ok_inj : (a c : Anchors) → ◌≡◌ {A = Result Fault Anchors} (ok a) (ok c) → a ≡ c
ok_inj a c e = cc

-- No attested sequence is past the last one.
abbrev Bounded : Anchors → Type 0
Bounded a = (k : ℕ) (h : Text) → hash_at k a.by_sequence ≡ some h → k ≤ a.last_sequence

attest-Bounded : (a : Anchors) (o p : Option Json) → Bounded a → Bounded (attest a o p)
unfolding attest
attest-Bounded a (some (number n)) (some (string g)) b k h e =
    let f : (if n == k then some g else hash_at k a.by_sequence) ≡ some h =
      sym (hash_at-set_hash k n g a.by_sequence) ∙ e in
    elim (Bool-cases (n == k)) [
      | inl q ↦ ground arith
      | inr q ↦ let old : hash_at k a.by_sequence ≡ some h = (rw q at f) in omega (arith, b k h old)
    ]
attest-Bounded a _ _ b k h e = b k h e

add_anchor-Bounded : (a c : Anchors) (l : Line) → add_anchor a l ≡ ok c → Bounded a → Bounded c
unfolding add_anchor
add_anchor-Bounded a c (parsed null) e b = cc
add_anchor-Bounded a c (parsed v) e b =
    subst Bounded (ok_inj _ c e)
      (attest-Bounded a (member sequence_key v) (member event_hash_key v) b)
add_anchor-Bounded a c _ e b = subst Bounded (ok_inj a c e) b

add_anchors-Bounded :
    (a c : Anchors) (ls : List Line) → add_anchors a ls ≡ ok c → Bounded a → Bounded c
unfolding add_anchors
add_anchors-Bounded a c [] e b = subst Bounded (ok_inj a c e) b
add_anchors-Bounded a c (l ∷ ls) e b =
    let r = >>=-eq-ok (add_anchor a l) _ e in
    add_anchors-Bounded r.0 c ls r.2 (add_anchor-Bounded a r.0 l r.1 b)

module _ (sha256 : Text → Text) where
  -- A first part of the log, with so many records and such a head.
  abbrev Prefix : Option Anchors → Cursor → List Line → ℕ → Text → Type 0
  Prefix a c ls n h =
      (before : List Line) × (later : List Line) × (e : Cursor) × (ls ≡ before ++ later)
      × (verify_lines sha256 a c before ≡ ok (running e))
      × (e.records ≡ n)
      × (e.previous_hash ≡ some h)

  Prefix-cons :
      (a : Option Anchors) (c d : Cursor) (l : Line) (ls : List Line) (n : ℕ) (h : Text)
      → verify_line sha256 a c l ≡ ok (running d)
      → Prefix a d ls n h
      → Prefix a c (l ∷ ls) n h
  unfolding verify_lines
  Prefix-cons a c d l ls n h v p = (l ∷ p.0, p.1, p.2, ap (◌∷◌ l) p.3, rw v p.4, p.5, p.6)

  Prefix-one :
      (a : Option Anchors) (c d : Cursor) (l : Line) (ls : List Line) (n : ℕ) (h : Text)
      → verify_line sha256 a c l ≡ ok (running d)
      → d.records ≡ n
      → d.previous_hash ≡ some h
      → Prefix a c (l ∷ ls) n h
  unfolding verify_lines
  Prefix-one a c d l ls n h v r p = (l ∷ [], ls, d, refl, rw v refl, r, p)

  -- A hash that the anchors do not object to is the one that they attest.
  attested_hash :
      (a : Anchors) (n : ℕ) (g h : Text)
      → hash_at n a.by_sequence ≡ some h
      → contradicts (some a) n g ≡ false
      → ◌≡◌ {A = Option Text} (some g) (some h)
  unfolding contradicts differs
  attested_hash a n g h e d =
      let f : not (text_eq h g) ≡ false = (rw e at d) in ground (arith, text_eq_iff h g)

  verify_lines-Prefix :
      (a : Anchors) (n : ℕ) (h : Text) (c d : Cursor) (ls : List Line)
      → hash_at n a.by_sequence ≡ some h
      → verify_lines sha256 (some a) c ls ≡ ok (running d)
      → c.records + 1 ≡ c.sequence
      → c.sequence ≤ n
      → n ≤ d.records
      → Prefix (some a) c ls n h
  unfolding verify_lines
  verify_lines-Prefix a n h c d [] g v k l m =
      let e : c.records ≡ d.records = ap (λ s. s.records) (running_inj c d v) in
      absurd (omega (arith, e))
    where
      running_inj :
          (c d : Cursor) → ◌≡◌ {A = Result Fault Step} (ok (running c)) (ok (running d)) → c ≡ d
      running_inj c d v = cc
  verify_lines-Prefix a n h c d (l ∷ ls) g v k lo hi =
      let r = verify_lines-running sha256 (some a) c d l ls v in
      elim (verify_line-running sha256 (some a) c r.0 l r.1) [
        | inl p ↦ Prefix-cons (some a) c r.0 l ls n h r.1 (
            verify_lines-Prefix a n h r.0 d ls g r.2
              (subst (λ x. x.records + 1 ≡ x.sequence) (sym p.1) k)
              (subst (λ x. x.sequence ≤ n) (sym p.1) lo) hi)
        | inr p ↦ elim (Bool-cases (c.sequence == n)) [
          | inl q ↦
              let s : c.sequence ≡ n = (==_iff c.sequence n).0 q in
              let hash =
                attested_hash a c.sequence (hash_in sha256 p.0 p.1) h
                  (subst (λ i. hash_at i a.by_sequence ≡ some h) (sym s) g) p.3.5 in
              Prefix-one (some a) c r.0 l ls n h r.1
                (subst (λ x. x.records ≡ n) (sym p.4) (omega (arith, k, s)))
                (ap (λ x. x.previous_hash) p.4 ∙ hash)
          | inr q ↦ Prefix-cons (some a) c r.0 l ls n h r.1 (
              verify_lines-Prefix a n h r.0 d ls g r.2
                (subst (λ x. x.records + 1 ≡ x.sequence) (sym p.4) (omega (arith, k)))
                (subst (λ x. x.sequence ≤ n) (sym p.4) (ground arith)) hi)
        ]
      ]

  conclude-reached :
      (a : Anchors) (s : Step) (m : ℕ) (h : Option Text) (x : Option (ℕ × ℕ))
      → conclude (some a) s ≡ valid m h x
      → ((c : Cursor) × (s ≡ running c) × (a.last_sequence ≤ c.records))
        ⊎ (s ≡ stopped (valid m h x))
  conclude-reached a (stopped v) m h x e = inr (ap stopped e)
  conclude-reached a (running c) m h x e = elim (Bool-cases (ltb c.records a.last_sequence)) [
    | inl g ↦
        let f : invalid c.records (tail_truncation c.records a.last_sequence) ≡ valid m h x =
          (rw g at e) in
        cc f
    | inr g ↦ inl (c, refl, ground arith)
  ]

  prefix-verifies :
      (a : Anchors) (before : List Line) (e : Cursor) (n : ℕ) (h : Text)
      → verify_lines sha256 (some a) first_cursor before ≡ ok (running e)
      → e.records ≡ n
      → e.previous_hash ≡ some h
      → verify_audit_chain sha256 none before ≡ ok (valid n (some h) none)
  unfolding verify_audit_chain contradicts
  prefix-verifies a before e n h v r p =
      rw (verify_lines-anchors sha256 (some a) none first_cursor e before v (λ k g l x. refl))
        (cc (r, p))

-- An anchor fixes the log up to its record: a log that verifies against a stream in which a sequence
-- from 1 on is attested with a hash begins with a log that verifies by itself, with as many records as
-- that sequence and with that hash as its head. So a log cut short before an anchor does not verify.
pub verify_audit_chain-anchored :
    (sha256 : Text → Text) (stream log : List Line) (m : ℕ) (head : Option Text)
    (x : Option (ℕ × ℕ)) (a : Anchors) (n : ℕ) (h : Text)
    → verify_audit_chain sha256 (some stream) log ≡ ok (valid m head x)
    → read_anchors stream ≡ ok a
    → hash_at n a.by_sequence ≡ some h
    → 1 ≤ n
    → (before : List Line) × (later : List Line) × (log ≡ before ++ later)
      × (verify_audit_chain sha256 none before ≡ ok (valid n (some h) none))
unfolding verify_audit_chain read_anchors
verify_audit_chain-anchored sha256 stream log m head x a n h e r g pos =
    let t = >>=-eq-ok (verify_lines sha256 (some a) first_cursor log) _ (rw r at e) in
    let bounded : n ≤ a.last_sequence = add_anchors-Bounded _ a stream r (λ k h e. cc) n h g in
    elim (conclude-reached sha256 a t.0 m head x (verdict_inj _ _ t.2)) [
      | inr q ↦
          absurd (verify_lines-stopped sha256 (some a) first_cursor log m head x (t.1 ∙ ap ok q))
      | inl c ↦
          let p =
            verify_lines-Prefix sha256 a n h first_cursor c.0 log g (t.1 ∙ ap ok c.1) refl pos
              (omega (arith, bounded, c.2)) in
          (p.0, p.1, p.3, prefix-verifies sha256 a p.0 p.2 n h p.4 p.5 p.6)
    ]
  where
    verdict_inj : (v w : Verdict) → ◌≡◌ {A = Result Fault Verdict} (ok v) (ok w) → v ≡ w
    verdict_inj v w e = cc
