-- ===== src/Audit/Tests.antt =====
-- Runs of the audit log, and the theorems about it on concrete events.
use native.Mathlib.Omega.{arith}
use haechi.Prelude.{
  ◌++◌, ℕ, ◌≡◌, refl, ◌↔◌, true, false, none, some, Option, List, [], ◌∷◌, map, if◌then◌else◌, Text,
  utf16, string, boolean, object, Fields, stop, field, get, set, without, member, is_truthy_value,
  text_eq, ok,
}
use mathlib.Core.Option
use haechi.Prelude.Sort.{sort}
use haechi.Audit.{
  canonicalize, digits, decimal, quote, quote_units, text_le, is_forbidden, sanitize_audit,
  sanitize_fields,
}
use haechi.Audit.Sanitize.{IsClean, sanitize_audit-IsClean}
use haechi.Audit.Canonical.Layout.{sorted}
use haechi.Audit.Canonical.Injective.{canonicalize_iff}
use haechi.Audit.Chain.Anchored.{verify_audit_chain-anchored}
use haechi.Audit.Chain.Records.{
  Anchors, add_anchors, add_anchor, attest, set_hash, read_anchors, hash_at, audit_integrity, Line,
  parsed, unsigned_integrity,
}
use haechi.Audit.Chain.{
  anchor_line, tail_truncation, Files, no_files, valid, record_events, build_integrity_record,
  hash_of, unsigned_record, contradicts, verify_integrity, verify_line, verify_lines,
  verify_audit_chain, invalid, event_hash_mismatch,
}
use haechi.Audit.Chain.Recorded.{record_events-verifies}

-- A hash for the runs: the text itself.
abbrev same_text : Text → Text
same_text t = t

abbrev event : Fields
event =
    field (utf16 "type") (string (utf16 "request")) (field (utf16 "blocked") (boolean true) stop)

-- The same event with its fields the other way round.
abbrev event_reordered : Fields
event_reordered =
    field (utf16 "blocked") (boolean true) (field (utf16 "type") (string (utf16 "request")) stop)

abbrev leaky : Fields
leaky = field (utf16 "secret") (string (utf16 "hunter2")) event

abbrev log_of : Fields → List Line
log_of e = parsed (object (build_integrity_record same_text none e)) ∷ []

quoted_text : canonicalize (string (utf16 "a\"b")) ≡ utf16 "\"a\\\"b\""
unfolding canonicalize quote_units quote
quoted_text = refl

sorted_text : canonicalize (object event) ≡ utf16 "{\"blocked\":true,\"type\":\"request\"}"
unfolding canonicalize quote_units quote sort text_le
sorted_text = refl

leaky_cleaned : sanitize_fields leaky ≡ event
unfolding sanitize_audit is_forbidden text_eq
leaky_cleaned = refl

abbrev head : Option Text
head = some (
    same_text
      (canonicalize (object (set audit_integrity (object (unsigned_integrity none)) event))))

-- A record changed after it was written.
abbrev tampered : List Line
tampered =
    parsed
      (object (set (utf16 "blocked") (boolean false) (build_integrity_record same_text none event)))
    ∷ []

rejected : verify_audit_chain same_text none tampered ≡ ok (invalid 0 event_hash_mismatch)
unfolding verify_audit_chain verify_lines verify_line verify_integrity build_integrity_record
    hash_of unsigned_integrity unsigned_record contradicts canonicalize get set without member
    is_truthy_value text_eq sort text_le quote_units quote digits decimal
rejected = refl

sanitize_audit-IsClean_example :
    IsClean (sanitize_audit (object leaky))
    × (sanitize_audit (sanitize_audit (object leaky)) ≡ sanitize_audit (object leaky))
    × (get (utf16 "secret") (sanitize_fields leaky) ≡ (
        if is_forbidden (utf16 "secret")
        then none
        else Option.map sanitize_audit (get (utf16 "secret") leaky)))
sanitize_audit-IsClean_example = sanitize_audit-IsClean leaky (utf16 "secret")

canonicalize_iff_example :
    (canonicalize (object event) ≡ canonicalize (object event_reordered))
    ↔ (sorted (object event) ≡ sorted (object event_reordered))
canonicalize_iff_example = canonicalize_iff (object event) (object event_reordered)

record_events-verifies_example :
    (f : Files) × (head : Option Text) × (anchors : ℕ × ℕ) × (record_events same_text
        (some 1)
        (leaky ∷ event ∷ [])
        no_files
      ≡ ok f)
    × (verify_audit_chain same_text none f.log ≡ ok (valid 2 head none))
    × (verify_audit_chain same_text (some f.anchor_stream) f.log ≡ ok (valid 2 head (some anchors)))
record_events-verifies_example = record_events-verifies same_text (some 1) (leaky ∷ event ∷ [])

abbrev event_hash : Text
event_hash =
    same_text (canonicalize (object (set audit_integrity (object (unsigned_integrity none)) event)))

abbrev stream : List Line
stream = anchor_line 1 event_hash none ∷ []

abbrev attested : Anchors
attested = record { by_sequence = (1, event_hash) ∷ []; last_sequence = 1 }

accepted_anchored :
    verify_audit_chain same_text (some stream) (log_of event) ≡ ok (valid 1 head (some (1, 1)))
unfolding verify_audit_chain verify_lines verify_line verify_integrity build_integrity_record
    hash_of unsigned_integrity unsigned_record contradicts canonicalize get set without member
    is_truthy_value text_eq sort text_le quote_units quote digits decimal add_anchors add_anchor
    attest set_hash read_anchors hash_at
accepted_anchored = refl

stream_read : read_anchors stream ≡ ok attested
unfolding read_anchors add_anchors add_anchor attest set_hash get member text_eq
stream_read = refl

attested_first : hash_at 1 attested.by_sequence ≡ some event_hash
unfolding hash_at
attested_first = refl

-- The same log cut short.
truncated : verify_audit_chain same_text (some stream) [] ≡ ok (invalid 0 (tail_truncation 0 1))
unfolding verify_audit_chain verify_lines verify_line verify_integrity build_integrity_record
    hash_of unsigned_integrity unsigned_record contradicts canonicalize get set without member
    is_truthy_value text_eq sort text_le quote_units quote digits decimal add_anchors add_anchor
    attest set_hash read_anchors
truncated = refl

verify_audit_chain-anchored_example :
    (before : List Line) × (later : List Line) × (log_of event ≡ before ++ later)
    × (verify_audit_chain same_text none before ≡ ok (valid 1 (some event_hash) none))
verify_audit_chain-anchored_example =
    verify_audit_chain-anchored same_text stream (log_of event) 1 head (some (1, 1)) attested 1
      event_hash accepted_anchored stream_read attested_first (omega arith)
