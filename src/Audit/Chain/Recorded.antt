-- ===== src/Audit/Chain/Recorded.antt =====
-- Every sequence of events goes into the log, and the log and the anchors that come out verify.
use haechi.Prelude.{
  ℕ, ◌+◌, ◌≤◌, ◌<◌, ◌≡◌, refl, ◌∙◌, true, false, Option, none, some, List, [], ◌∷◌, ◌++◌, arith,
  length, Text, text_eq_iff, string, object, Fields, get, Result, ok,
}
use haechi.Audit.{sanitize_fields}
use haechi.Audit.Chain.Records.{
  timestamp_key, parsed, Fault, Previous, next_sequence, previous_hash_of, Anchors, hash_at,
  add_anchors, read_anchors, add_anchors,
}
use haechi.Audit.Chain.{
  Verdict, valid, Cursor, first_cursor, running, is_previous, contradicts, conclude, last_line,
  last_integrity, Files, write_anchor, hash_of, build_integrity_record, record_event, verify_lines,
  verify_audit_chain, record_events, no_files,
}
use haechi.Audit.Chain.Anchoring.{
  anchored, read-write_anchor, anchored-hash_at, anchored-contradicts, anchored-last_sequence,
}
use haechi.Audit.Chain.Steps.{after, Accepts-verify_line, verify_lines-append}
use haechi.Audit.Chain.Honest.{
  hash_in-build, build-Accepts, verify_lines-anchors, previous_after, last_integrity-build,
}

module _ (sha256 : Text → Text) (every : Option ℕ) where
  -- What holds of the files after every append.
  record Sound (f : Files) : Type 0 where
    attested : Anchors
    reached : Cursor
    last : Option Previous
    anchors_read : read_anchors f.anchor_stream ≡ ok attested
    passes : verify_lines sha256 (some attested) first_cursor f.log ≡ ok (running reached)
    last_read : last_integrity (last_line f.log) ≡ ok last
    numbered : reached.sequence ≡ next_sequence last
    chained : is_previous reached.previous_hash (some (previous_hash_of last)) ≡ true
    counted : reached.records + 1 ≡ reached.sequence
    behind : attested.last_sequence < reached.sequence
    ahead : (k : ℕ) → reached.sequence ≤ k → hash_at k attested.by_sequence ≡ none

  -- The files after an append.
  appended : Option Previous → Fields → Files → Files
  appended p event f = record {
    log = f.log ++ parsed (object (build_integrity_record sha256 p event)) ∷ [];
    anchor_stream =
        write_anchor every (next_sequence p) (hash_of sha256 p event) (get timestamp_key event)
          f.anchor_stream;
  }

  record_event-appended :
      (event : Fields) (f : Files) (p : Option Previous)
      → last_integrity (last_line f.log) ≡ ok p
      → record_event sha256 every event f ≡ ok (appended p (sanitize_fields event) f)
  unfolding record_event appended
  record_event-appended event f p e = rw e refl

  module _ (f : Files) (s : Sound f) (event : Fields) where
    h : Text
    h = hash_of sha256 s.last event

    a : Anchors
    a = anchored every (next_sequence s.last) h s.attested

    unobjecting : contradicts (some a) s.reached.sequence h ≡ false
    unfolding a h
    unobjecting = rw (s.numbered) (
        anchored-contradicts every (next_sequence s.last) _ s.attested
          (s.ahead _ (omega (arith, s.numbered))))

    old_lines : verify_lines sha256 (some a) first_cursor f.log ≡ ok (running s.reached)
    unfolding a contradicts
    old_lines =
        verify_lines-anchors sha256 (some s.attested) (some a) first_cursor s.reached f.log s.passes
          (λ k g l e.
            rw
              (anchored-hash_at every k (next_sequence s.last) h s.attested
                (ground (arith, s.numbered)))
              e)

    new_line :
        verify_lines sha256
          (some a)
          s.reached
          (parsed (object (build_integrity_record sha256 s.last event)) ∷ [])
        ≡ ok (running (after s.reached h))
    unfolding verify_lines h
    new_line =
        rw
          (
            Accepts-verify_line sha256 (some a) s.reached _ _ (
                build-Accepts sha256 (some a) s.reached s.last event s.numbered s.chained
                  unobjecting),
            hash_in-build sha256 s.last event,
          )
          refl

    chained_after : is_previous (some h) (some (string h)) ≡ true
    unfolding is_previous
    chained_after = (text_eq_iff h h).1 refl

    behind_after : a.last_sequence < s.reached.sequence + 1
    unfolding a
    behind_after = omega (
      arith,
      s.numbered,
      s.behind,
      anchored-last_sequence every (next_sequence s.last) h s.attested
          (omega (arith, s.numbered, s.behind)),
    )

    ahead_after : (k : ℕ) → s.reached.sequence + 1 ≤ k → hash_at k a.by_sequence ≡ none
    unfolding a
    ahead_after k l =
        anchored-hash_at every k (next_sequence s.last) h s.attested (ground (arith, s.numbered))
        ∙ s.ahead k (omega arith)

    appended-Sound : Sound (appended s.last event f)
    unfolding appended h a
    appended-Sound = record {
      attested = a;
      reached = after s.reached h;
      last = some (previous_after s.last h);
      anchors_read = read-write_anchor every _ _ _ f.anchor_stream s.attested s.anchors_read;
      passes =
          verify_lines-append sha256 (some a) first_cursor s.reached f.log _ old_lines ∙ new_line;
      last_read = last_integrity-build sha256 f.log s.last event;
      numbered = omega (arith, s.numbered);
      chained = chained_after;
      counted = omega (arith, s.counted);
      behind = behind_after;
      ahead = ahead_after;
    }

  no_files-Sound : Sound no_files
  unfolding verify_lines last_integrity last_line hash_at read_anchors add_anchors is_previous
  no_files-Sound = record {
    attested = record { by_sequence = []; last_sequence = 0 };
    reached = first_cursor;
    last = none;
    anchors_read = refl;
    passes = refl;
    last_read = refl;
    numbered = refl;
    chained = refl;
    counted = refl;
    behind = omega arith;
    ahead = λ k l. refl;
  }

  record_events-Sound :
      (events : List Fields) (f : Files) (s : Sound f)
      → (g : Files) × (t : Sound g) × (record_events sha256 every events f ≡ ok g)
        × (t.reached.records ≡ s.reached.records + length events)
  unfolding record_events appended-Sound
  record_events-Sound [] f s = (f, s, refl, omega arith)
  record_events-Sound (event ∷ events) f s =
      let r =
        record_events-Sound events (appended s.last (sanitize_fields event) f)
          (appended-Sound f s (sanitize_fields event)) in
      (r.0, r.1, rw (record_event-appended event f s.last s.last_read) (r.2), omega (arith, r.3))

  attests :
      (c : Cursor) (a : Anchors)
      → a.last_sequence ≤ c.records
      → ◌≡◌ {A = Result Fault Verdict}
          (ok (conclude (some a) (running c)))
          (ok (valid c.records c.previous_hash (some (length a.by_sequence, a.last_sequence))))
  attests c a l = ground arith

  verifies :
      (f : Files) (s : Sound f)
      → (verify_audit_chain sha256 none f.log
          ≡ ok (valid s.reached.records s.reached.previous_hash none))
        × (verify_audit_chain sha256 (some f.anchor_stream) f.log
            ≡ ok (
                valid s.reached.records s.reached.previous_hash
                  (some (length s.attested.by_sequence, s.attested.last_sequence))))
  unfolding verify_audit_chain contradicts
  verifies f s =
      let bare =
        verify_lines-anchors sha256 (some s.attested) none first_cursor s.reached f.log s.passes
          (λ k h l e. refl) in
      (
        rw bare refl,
        rw (s.anchors_read, s.passes)
            (attests s.reached s.attested (omega (arith, s.behind, s.counted))),
      )

-- Whatever events a sink is given, one after the other, from an empty log and with any setting of the
-- anchors: every append succeeds, and the log verifies, alone and against the anchors written with it,
-- with as many records as there were events and the same head.
pub record_events-verifies :
    (sha256 : Text → Text) (every : Option ℕ) (events : List Fields)
    → (f : Files) × (head : Option Text) × (anchors : ℕ × ℕ) × (record_events sha256 every events
          no_files
        ≡ ok f)
      × (verify_audit_chain sha256 none f.log ≡ ok (valid (length events) head none))
      × (verify_audit_chain sha256 (some f.anchor_stream) f.log
          ≡ ok (valid (length events) head (some anchors)))
unfolding no_files-Sound
record_events-verifies sha256 every events =
    let r = record_events-Sound sha256 every events no_files (no_files-Sound sha256 every) in
    let v = verifies sha256 every r.0 r.1 in
    let n : r.1.reached.records ≡ length events = omega (arith, r.3) in
    (r.0, r.1.reached.previous_hash, (_, _), r.2, (rw n at v.0), (rw n at v.1))
