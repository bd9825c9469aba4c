-- ===== src/Audit/Chain/Honest.antt =====
-- The log that a sink writes, record by record, is one that the verifier accepts.
use haechi.Prelude.{
  ℕ, ◌+◌, ◌≤◌, ◌<◌, ◌≡◌, refl, sym, subst, ap, ◌∙◌, inl, inr, true, false, Option, some, List, [],
  ◌∷◌, ◌++◌, arith, ◌==◌, if◌then◌else◌, Text, text_eq, text_eq_iff, Json, string, object, Fields,
  get, set, get-set, set-set, without, member, is_truthy_value, Result, ok, err, ◌>>=◌, >>=-eq-ok,
  number, field, stop, utf16,
}
use haechi.Audit.{canonicalize}
use haechi.Audit.Chain.Records.{
  audit_integrity, sequence_key, previous_hash_key, event_hash_key, Line, blank, unparsable, parsed,
  Previous, next_sequence, previous_hash_of, unsigned_integrity, Anchors, hash_at, set_hash,
  add_anchor, add_anchors,
}
use haechi.Audit.Chain.{
  Cursor, running, is_previous, is_text, unsigned_record, contradicts, last_line, last_integrity,
  hash_of, build_integrity_record, verify_line, verify_lines,
}
use haechi.Audit.Chain.Steps.{
  after, Accepts, hash_in, verify_line-running, Accepts-verify_line, verify_lines-running,
  verify_lines-grows,
}

last_line-append : (ls : List Line) (v : Json) → last_line (ls ++ parsed v ∷ []) ≡ some (parsed v)
unfolding last_line
last_line-append [] v = refl
last_line-append (blank ∷ ls) v = last_line-append ls v
last_line-append (unparsable ∷ ls) v = rw (last_line-append ls v) refl
last_line-append (parsed w ∷ ls) v = rw (last_line-append ls v) refl

>>=-ok : {E : Type 0} {A : Type 0} (m : Result E A) → (m >>= λ x. ok x) ≡ m
>>=-ok (ok x) = refl
>>=-ok (err e) = refl

pub add_anchors-append :
    (a b : Anchors) (ls : List Line) (l : Line)
    → add_anchors a ls ≡ ok b
    → add_anchors a (ls ++ l ∷ []) ≡ add_anchor b l
unfolding add_anchors
add_anchors-append a b [] l h =
    let e : a ≡ b = cc in >>=-ok (add_anchor a l) ∙ ap (λ c. add_anchor c l) e
add_anchors-append a b (k ∷ ls) l h =
    let r = >>=-eq-ok (add_anchor a k) _ h in rw (r.1) (add_anchors-append r.0 b ls l r.2)

pub hash_at-set_hash :
    (k n : ℕ) (h : Text) (m : List (ℕ × Text))
    → hash_at k (set_hash n h m) ≡ (if n == k then some h else hash_at k m)
unfolding hash_at set_hash
hash_at-set_hash k n h [] = refl
hash_at-set_hash k n h ((i, g) ∷ m) = ground (arith, hash_at-set_hash k n h m)

is_text_self : (h : Text) → is_text h (some (string h)) ≡ true
unfolding text_eq
is_text_self h = (text_eq_iff h h).1 refl

is_number_self : (n : ℕ) → (n == n) ≡ true
is_number_self n = ground arith

-- The integrity with its hash, written out.
abbrev signed_fields : Option Previous → Text → Fields
signed_fields p h = field (utf16 "alg") (string (utf16 "sha256")) (
    field (utf16 "canonicalization") (string (utf16 "json-stable-v1")) (
      field sequence_key (number (next_sequence p))
        (field previous_hash_key (previous_hash_of p) (field event_hash_key (string h) stop))))

set-unsigned :
    (p : Option Previous) (h : Text)
    → set event_hash_key (string h) (unsigned_integrity p) ≡ signed_fields p h
unfolding set text_eq unsigned_integrity
set-unsigned p h = refl

without-signed :
    (p : Option Previous) (h : Text)
    → without event_hash_key (signed_fields p h) ≡ unsigned_integrity p
unfolding without text_eq unsigned_integrity
without-signed p h = refl

get-signed :
    (p : Option Previous) (h : Text)
    → (get sequence_key (signed_fields p h) ≡ some (number (next_sequence p)))
      × (get previous_hash_key (signed_fields p h) ≡ some (previous_hash_of p))
      × (get event_hash_key (signed_fields p h) ≡ some (string h))
unfolding get text_eq
get-signed p h = (refl, refl, refl)

-- The last record's integrity, as the next append reads it.
abbrev pub previous_after : Option Previous → Text → Previous
previous_after p h = record { sequence = next_sequence p; event_hash = some (string h) }

module _ (sha256 : Text → Text) where
  pub signed_integrity : Option Previous → Fields → Json
  signed_integrity p event = object (signed_fields p (hash_of sha256 p event))

  unsigned_record-build :
      (p : Option Previous) (event : Fields)
      → unsigned_record (object (build_integrity_record sha256 p event)) (signed_integrity p event)
        ≡ object (set audit_integrity (object (unsigned_integrity p)) event)
  unfolding unsigned_record build_integrity_record signed_integrity
  unsigned_record-build p event = ap object (
      rw
        (
          without-signed p (hash_of sha256 p event),
          set-set audit_integrity
              (object (set event_hash_key (string (hash_of sha256 p event)) (unsigned_integrity p)))
              (object (unsigned_integrity p))
              (set audit_integrity (object (unsigned_integrity p)) event),
          set-set audit_integrity (object (unsigned_integrity p)) (object (unsigned_integrity p))
              event,
        )
        refl)

  pub hash_in-build :
      (p : Option Previous) (event : Fields)
      → hash_in sha256 (object (build_integrity_record sha256 p event)) (signed_integrity p event)
        ≡ hash_of sha256 p event
  unfolding hash_of
  hash_in-build p event = ap (λ v. sha256 (canonicalize v)) (unsigned_record-build p event)

  member-build :
      (p : Option Previous) (event : Fields)
      → member audit_integrity (object (build_integrity_record sha256 p event))
        ≡ some (signed_integrity p event)
  unfolding member build_integrity_record signed_integrity
  member-build p event =
      get-set audit_integrity _ _
      ∙ ap (λ x. some (object x)) (set-unsigned p (hash_of sha256 p event))

  pub build-Accepts :
      (a : Option Anchors) (c : Cursor) (p : Option Previous) (event : Fields)
      → c.sequence ≡ next_sequence p
      → is_previous c.previous_hash (some (previous_hash_of p)) ≡ true
      → contradicts a c.sequence (hash_of sha256 p event) ≡ false
      → Accepts sha256 a c
          (object (build_integrity_record sha256 p event))
          (signed_integrity p event)
  unfolding signed_integrity member is_truthy_value
  build-Accepts a c p event n q d =
      let g = get-signed p (hash_of sha256 p event) in
      let e = hash_in-build p event in
      (
        member-build p event,
        refl,
        rw (g.0, n) (is_number_self _),
        rw (g.1) q,
        rw (g.2, e) (is_text_self _),
        rw e d,
      )

  blank-skipped : (a : Option Anchors) (c : Cursor) → verify_line sha256 a c blank ≡ ok (running c)
  unfolding verify_line
  blank-skipped a c = refl

  -- The same lines pass under other anchors that do not object to their hashes.
  pub verify_lines-anchors :
      (a b : Option Anchors) (c d : Cursor) (ls : List Line)
      → verify_lines sha256 a c ls ≡ ok (running d)
      → ((k : ℕ) (h : Text)
          → k < d.sequence
          → contradicts a k h ≡ false
          → contradicts b k h ≡ false)
      → verify_lines sha256 b c ls ≡ ok (running d)
  unfolding verify_lines
  verify_lines-anchors a b c d [] h sub = h
  verify_lines-anchors a b c d (l ∷ ls) h sub =
      let r = verify_lines-running sha256 a c d l ls h in
      let rest = verify_lines-anchors a b r.0 d ls r.2 sub in
      elim (verify_line-running sha256 a c r.0 l r.1) [
        | inl p ↦
            let here : verify_line sha256 b c l ≡ ok (running r.0) =
              rw (p.0, p.1) (blank-skipped b c) in
            rw here rest
        | inr p ↦
            let grown : after c (hash_in sha256 p.0 p.1) ≡ r.0 = sym p.4 in
            let low : c.sequence + 1 ≤ d.sequence =
              subst (λ e. e.sequence ≤ d.sequence) p.4 (verify_lines-grows sha256 a r.0 d ls r.2) in
            let same : Accepts sha256 b c p.0 p.1 =
              (p.3.0, p.3.1, p.3.2, p.3.3, p.3.4, sub _ _ (omega (arith, low)) p.3.5) in
            let here : verify_line sha256 b c l ≡ ok (running r.0) =
              rw (p.2)
                (Accepts-verify_line sha256 b c p.0 p.1 same ∙ ap (λ e. ok (running e)) grown) in
            rw here rest
      ]

  pub last_integrity-build :
      (ls : List Line) (p : Option Previous) (event : Fields)
      → last_integrity
          (last_line (ls ++ parsed (object (build_integrity_record sha256 p event)) ∷ []))
        ≡ ok (some (previous_after p (hash_of sha256 p event)))
  unfolding last_integrity signed_integrity text_eq get
  last_integrity-build ls p event =
      rw
        (last_line-append ls (object (build_integrity_record sha256 p event)), member-build p event)
        refl
