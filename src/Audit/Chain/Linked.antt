-- ===== src/Audit/Chain/Linked.antt =====
-- A log that verifies is a chain: each record with the hash of the one before.
use haechi.Prelude.{
  ℕ, ◌≡◌, refl, sym, subst, ap, ◌∙◌, ◌⊎◌, inl, inr, Bool, true, not, Bool-cases, Option, none, some,
  List, [], ◌∷◌, arith, ltb, if◌then◌else◌, length, Text, Json, null, object, Fields, get, member,
  is_truthy_value, Result, ok, >>=-eq-ok,
}
use haechi.Audit.Canonical.Layout.{sorted}
use haechi.Audit.Chain.Records.{
  audit_integrity, sequence_key, previous_hash_key, event_hash_key, Line, blank, unparsable, parsed,
  Fault, Anchors, read_optional,
}
use haechi.Audit.Chain.{
  Verdict, valid, Cursor, first_cursor, Step, stopped, running, is_number, is_previous,
  unsigned_record, conclude, verify_line, verify_lines, verify_integrity, Reason, invalid,
  tail_truncation, missing_integrity, sequence_mismatch, previous_hash_mismatch,
  event_hash_mismatch, anchor_hash_mismatch, is_text, contradicts, verify_audit_chain,
}
use haechi.Audit.Chain.Steps.{after, Accepts, hash_in, verify_line-running, verify_lines-running}

-- What a record says, its own hash left out, whatever the order of its fields.
unfoldable pub content_with : Json → Option Json → Json
unfolding sorted unsigned_record
content_with v none = sorted v
content_with v (some integrity) = sorted (unsigned_record v integrity)

unfoldable pub content : Json → Json
unfolding content_with member
content v = content_with v (member audit_integrity v)

-- The records of a log, the last one first.
pub records_last_first : List Json → List Line → List Json
records_last_first acc [] = acc
records_last_first acc (parsed v ∷ ls) = records_last_first (v ∷ acc) ls
records_last_first acc (_ ∷ ls) = records_last_first acc ls

-- An integrity with a previous hash before it is an object in an object.
module _ (sha256 : Text → Text) where
  -- Records, the last one first, each with the hash of the one before.
  unfoldable pub Linked : Option Text → List Json → Type 0
  unfolding content member
  Linked p [] = p ≡ none
  Linked p (v ∷ vs) =
      (fs : Fields) × (integrity : Fields) × (q : Option Text) × (v ≡ object fs)
      × (get audit_integrity fs ≡ some (object integrity))
      × (p ≡ some (hash_in sha256 v (object integrity)))
      × (is_previous q (get previous_hash_key integrity) ≡ true)
      × Linked q vs

  Accepts-objects :
      (a : Option Anchors) (c : Cursor) (v integrity : Json)
      → Accepts sha256 a c v integrity
      → (fs : Fields) × (is : Fields) × (v ≡ object fs)
        × (integrity ≡ object is)
        × (get audit_integrity fs ≡ some (object is))
        × (is_previous c.previous_hash (get previous_hash_key is) ≡ true)
  unfolding member
  Accepts-objects a c (object fs) (object is) h = (fs, is, refl, refl, h.0, h.3)
  Accepts-objects a c (object fs) _ h = cc h.2
  Accepts-objects a c _ _ h = cc h.0

  verify_lines-Linked :
      (a : Option Anchors) (c d : Cursor) (ls : List Line) (acc : List Json)
      → verify_lines sha256 a c ls ≡ ok (running d)
      → Linked c.previous_hash acc
      → Linked d.previous_hash (records_last_first acc ls)
  unfolding verify_lines records_last_first Linked
  verify_lines-Linked a c d [] acc h k =
      let e : c ≡ d = cc in subst (λ e. Linked e.previous_hash acc) e k
  verify_lines-Linked a c d (l ∷ ls) acc h k =
      let r = verify_lines-running sha256 a c d l ls h in
      elim (verify_line-running sha256 a c r.0 l r.1) [
        | inl p ↦ rw (p.0) (
            verify_lines-Linked a r.0 d ls acc r.2
              (subst (λ e. Linked e.previous_hash acc) (sym p.1) k))
        | inr p ↦
            let o = Accepts-objects a c p.0 p.1 p.3 in
            let first : (p.0 ∷ acc) ≡ (p.0 ∷ acc) = refl in
            let next : Linked r.0.previous_hash (p.0 ∷ acc) = (
              o.0,
              o.1,
              c.previous_hash,
              o.2,
              o.4,
              ap (λ e. e.previous_hash) p.4 ∙ ap (λ i. some (hash_in sha256 p.0 i)) o.3,
              o.5,
              k,
            ) in
            rw (p.2) (verify_lines-Linked a r.0 d ls (p.0 ∷ acc) r.2 next)
      ]

  valid_hash :
      (n m : ℕ) (g h : Option Text) (x y : Option (ℕ × ℕ)) → valid n g x ≡ valid m h y → g ≡ h
  valid_hash n m g h x y e = cc

  conclude-valid :
      (a : Option Anchors) (s : Step) (n : ℕ) (h : Option Text) (x : Option (ℕ × ℕ))
      → conclude a s ≡ valid n h x
      → ((c : Cursor) × (s ≡ running c) × (c.previous_hash ≡ h)) ⊎ (s ≡ stopped (valid n h x))
  conclude-valid a (stopped v) n h x e = inr (ap stopped e)
  conclude-valid none (running c) n h x e = inl (c, refl, valid_hash _ _ _ _ _ _ e)
  conclude-valid (some a) (running c) n h x e = elim (Bool-cases (ltb c.records a.last_sequence)) [
    | inl g ↦
        let f : invalid c.records (tail_truncation c.records a.last_sequence) ≡ valid n h x =
          (rw g at e) in
        cc f
    | inr g ↦
        let f : valid c.records c.previous_hash (some (length a.by_sequence, a.last_sequence))
            ≡ valid n h x =
          (rw g at e) in
        inl (c, refl, valid_hash _ _ _ _ _ _ f)
  ]

  five_failures :
      (p q r s t : Bool) (m : ℕ) (u v w x y : Reason) (c : Cursor) (n : ℕ) (h : Option Text)
      (z : Option (ℕ × ℕ))
      → (if not p
          then stopped (invalid m u)
          else if not q
          then stopped (invalid m v)
          else if not r
          then stopped (invalid m w)
          else if not s
          then stopped (invalid m x)
          else if t
          then stopped (invalid m y)
          else running c)
        ≡ stopped (valid n h z)
      → ⊥
  five_failures p q r s t m u v w x y c n h z e = ground arith

  verify_integrity-stopped :
      (a : Option Anchors) (c : Cursor) (v : Json) (i : Option Json) (n : ℕ) (h : Option Text)
      (x : Option (ℕ × ℕ))
      → verify_integrity sha256 a c v i ≡ stopped (valid n h x)
      → ⊥
  unfolding verify_integrity
  verify_integrity-stopped a c v none n h x e = cc
  verify_integrity-stopped a c v (some i) n h x e =
      five_failures (is_truthy_value i) (is_number c.sequence (member sequence_key i))
        (is_previous c.previous_hash (member previous_hash_key i))
        (is_text (hash_in sha256 v i) (member event_hash_key i))
        (contradicts a c.sequence (hash_in sha256 v i)) c.records missing_integrity
        sequence_mismatch previous_hash_mismatch event_hash_mismatch
        (anchor_hash_mismatch c.sequence) (after c (hash_in sha256 v i)) n h x e

  verify_line-stopped :
      (a : Option Anchors) (c : Cursor) (l : Line) (n : ℕ) (h : Option Text) (x : Option (ℕ × ℕ))
      → verify_line sha256 a c l ≡ ok (stopped (valid n h x))
      → ⊥
  unfolding verify_line
  verify_line-stopped a c blank n h x e = cc
  verify_line-stopped a c unparsable n h x e = cc
  verify_line-stopped a c (parsed null) n h x e = cc
  verify_line-stopped a c (parsed v) n h x e =
      verify_integrity-stopped a c v (member audit_integrity v) n h x cc

  pub verify_lines-stopped :
      (a : Option Anchors) (c : Cursor) (ls : List Line) (n : ℕ) (h : Option Text)
      (x : Option (ℕ × ℕ))
      → verify_lines sha256 a c ls ≡ ok (stopped (valid n h x))
      → ⊥
  unfolding verify_lines
  verify_lines-stopped a c [] n h x e = cc
  verify_lines-stopped a c (l ∷ ls) n h x e =
      let r = >>=-eq-ok (verify_line sha256 a c l) _ e in
      on_step r.0 r.1 r.2 (λ d e. verify_lines-stopped a d ls n h x e)
    where
      on_step :
          (s : Step)
          → verify_line sha256 a c l ≡ ok s
          → (elim s [ stopped v ↦ ok (stopped v) | running e ↦ verify_lines sha256 a e ls ])
            ≡ ok (stopped (valid n h x))
          → ((d : Cursor) → verify_lines sha256 a d ls ≡ ok (stopped (valid n h x)) → ⊥)
          → ⊥
      on_step (stopped v) p q ih = verify_line-stopped a c l n h x (p ∙ q)
      on_step (running e) p q ih = ih e q

  pub verify_audit_chain-Linked :
      (anchor_lines : Option (List Line)) (log : List Line) (n : ℕ) (h : Option Text)
      (x : Option (ℕ × ℕ))
      → verify_audit_chain sha256 anchor_lines log ≡ ok (valid n h x)
      → Linked h (records_last_first [] log)
  unfolding verify_audit_chain Linked
  verify_audit_chain-Linked anchor_lines log n h x e =
      let r = >>=-eq-ok (read_optional anchor_lines) _ e in
      let t = >>=-eq-ok (verify_lines sha256 r.0 first_cursor log) _ r.2 in
      elim (conclude-valid r.0 t.0 n h x (ok_inj _ _ t.2)) [
        | inl c ↦
            subst (λ g. Linked g (records_last_first [] log)) c.2
              (verify_lines-Linked r.0 first_cursor c.0 log [] (t.1 ∙ ap ok c.1) refl)
        | inr g ↦ absurd (verify_lines-stopped r.0 first_cursor log n h x (t.1 ∙ ap ok g))
      ]
    where
      ok_inj : (v w : Verdict) → ◌≡◌ {A = Result Fault Verdict} (ok v) (ok w) → v ≡ w
      ok_inj v w e = cc
