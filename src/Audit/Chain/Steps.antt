-- ===== src/Audit/Chain/Steps.antt =====
-- One line of the log: when the verifier goes on past it, and where it stands then.
use haechi.Prelude.{
  ◌+◌, ◌≤◌, ◌≡◌, refl, subst, ap, ◌⊎◌, inl, inr, Bool, true, false, not, Option, none, some, List,
  [], ◌∷◌, ◌++◌, arith, if◌then◌else◌, Text, Json, null, boolean, number, string, array, object,
  member, is_truthy_value, ok, >>=-eq-ok,
}
use haechi.Audit.{canonicalize}
use haechi.Audit.Chain.Records.{
  audit_integrity, sequence_key, previous_hash_key, event_hash_key, Line, blank, unparsable, parsed,
  Anchors,
}
use haechi.Audit.Chain.{
  Verdict, Cursor, Step, stopped, running, is_number, is_previous, is_text, unsigned_record,
  contradicts, verify_integrity, verify_line, verify_lines,
}

abbrev pub after : Cursor → Text → Cursor
after c h = record { previous_hash = some h; sequence = c.sequence + 1; records = c.records + 1 }

five_tests :
    (p q r s t : Bool) (u v w x y : Verdict) (c d : Cursor)
    → (if not p
        then stopped u
        else if not q
        then stopped v
        else if not r
        then stopped w
        else if not s
        then stopped x
        else if t
        then stopped y
        else running c)
      ≡ running d
    → (p ≡ true) × (q ≡ true) × (r ≡ true) × (s ≡ true) × (t ≡ false) × (d ≡ c)
five_tests p q r s t u v w x y c d h = ground arith

module _ (sha256 : Text → Text) where
  -- The verifier goes on past a record.
  abbrev pub Accepts : Option Anchors → Cursor → Json → Json → Type 0
  Accepts a c v integrity =
      (member audit_integrity v ≡ some integrity)
      × (is_truthy_value integrity ≡ true)
      × (is_number c.sequence (member sequence_key integrity) ≡ true)
      × (is_previous c.previous_hash (member previous_hash_key integrity) ≡ true)
      × (is_text (sha256 (canonicalize (unsigned_record v integrity)))
            (member event_hash_key integrity)
          ≡ true)
      × (contradicts a c.sequence (sha256 (canonicalize (unsigned_record v integrity))) ≡ false)

  abbrev pub hash_in : Json → Json → Text
  hash_in v integrity = sha256 (canonicalize (unsigned_record v integrity))

  verify_integrity-running :
      (a : Option Anchors) (c d : Cursor) (v : Json) (m : Option Json)
      → verify_integrity sha256 a c v m ≡ running d
      → (integrity : Json) × (m ≡ some integrity)
        × (is_truthy_value integrity ≡ true)
        × (is_number c.sequence (member sequence_key integrity) ≡ true)
        × (is_previous c.previous_hash (member previous_hash_key integrity) ≡ true)
        × (is_text (hash_in v integrity) (member event_hash_key integrity) ≡ true)
        × (contradicts a c.sequence (hash_in v integrity) ≡ false)
        × (d ≡ after c (hash_in v integrity))
  unfolding verify_integrity
  verify_integrity-running a c d v none h = cc
  verify_integrity-running a c d v (some integrity) h =
      let r = five_tests _ _ _ _ _ _ _ _ _ _ _ _ h in
      (integrity, refl, r.0, r.1, r.2, r.3, r.4, r.5)

  pub verify_line-running :
      (a : Option Anchors) (c d : Cursor) (l : Line)
      → verify_line sha256 a c l ≡ ok (running d)
      → ((l ≡ blank) × (d ≡ c))
        ⊎ ((v : Json) × (integrity : Json) × (l ≡ parsed v)
            × Accepts a c v integrity
            × (d ≡ after c (hash_in v integrity)))
  unfolding verify_line
  verify_line-running a c d blank h = inl (refl, cc)
  verify_line-running a c d unparsable h = cc
  verify_line-running a c d (parsed null) h = cc
  verify_line-running a c d (parsed v) h =
      let r = verify_integrity-running a c d v (member audit_integrity v) cc in
      inr (v, r.0, refl, (r.1, r.2, r.3, r.4, r.5, r.6), r.7)

  pub Accepts-verify_line :
      (a : Option Anchors) (c : Cursor) (v integrity : Json)
      → Accepts a c v integrity
      → verify_line sha256 a c (parsed v) ≡ ok (running (after c (hash_in v integrity)))
  unfolding verify_line verify_integrity
  Accepts-verify_line a c null integrity h = cc h.0
  Accepts-verify_line a c (boolean b) integrity h = cc h.0
  Accepts-verify_line a c (number n) integrity h = cc h.0
  Accepts-verify_line a c (string s) integrity h = cc h.0
  Accepts-verify_line a c (array xs) integrity h = cc h.0
  Accepts-verify_line a c (object fs) integrity h = rw (h.0, h.1, h.2, h.3, h.4, h.5) refl

  pub verify_lines-running :
      (a : Option Anchors) (c d : Cursor) (l : Line) (ls : List Line)
      → verify_lines sha256 a c (l ∷ ls) ≡ ok (running d)
      → (e : Cursor) × (verify_line sha256 a c l ≡ ok (running e))
        × (verify_lines sha256 a e ls ≡ ok (running d))
  unfolding verify_lines
  verify_lines-running a c d l ls h =
      let r = >>=-eq-ok (verify_line sha256 a c l) _ h in on_step r.0 r.1 r.2
    where
      on_step :
          (s : Step)
          → verify_line sha256 a c l ≡ ok s
          → (elim s [ stopped v ↦ ok (stopped v) | running e ↦ verify_lines sha256 a e ls ])
            ≡ ok (running d)
          → (e : Cursor) × (verify_line sha256 a c l ≡ ok (running e))
            × (verify_lines sha256 a e ls ≡ ok (running d))
      on_step (stopped v) p q = cc
      on_step (running e) p q = (e, p, q)

  pub verify_lines-append :
      (a : Option Anchors) (c d : Cursor) (ls ks : List Line)
      → verify_lines sha256 a c ls ≡ ok (running d)
      → verify_lines sha256 a c (ls ++ ks) ≡ verify_lines sha256 a d ks
  unfolding verify_lines
  verify_lines-append a c d [] ks h = ap (λ e. verify_lines sha256 a e ks) cc
  verify_lines-append a c d (l ∷ ls) ks h =
      let r = verify_lines-running a c d l ls h in rw (r.1) (verify_lines-append a r.0 d ls ks r.2)

  pub verify_lines-grows :
      (a : Option Anchors) (c d : Cursor) (ls : List Line)
      → verify_lines sha256 a c ls ≡ ok (running d)
      → c.sequence ≤ d.sequence
  unfolding verify_lines
  verify_lines-grows a c d [] h =
      let e : c ≡ d = cc in subst (λ e. c.sequence ≤ e.sequence) e (omega arith)
  verify_lines-grows a c d (l ∷ ls) h =
      let r = verify_lines-running a c d l ls h in
      let rest = verify_lines-grows a r.0 d ls r.2 in
      elim (verify_line-running a c r.0 l r.1) [
        | inl p ↦ subst (λ e. e.sequence ≤ d.sequence) p.1 rest
        | inr p ↦ let next = subst (λ e. e.sequence ≤ d.sequence) p.4 rest in omega (arith, next)
      ]
