-- ===== src/Audit/Chain.antt =====
-- packages/audit/index.mjs: the chain of hashes over the log's records. A file is its list of lines, and
-- a missing file is the empty one; SHA-256 is a parameter.
use haechi.Prelude.{
  ℕ, suc, ◌+◌, ◌%◌, max, ◌≡◌, Bool, true, false, not, ◌&&◌, Option, none, some, List, [], ◌∷◌, ◌++◌,
  ltb, ◌==◌, if◌then◌else◌, or_default, length, Text, text_eq, utf16, Json, null, number, string,
  object, Fields, stop, field, get, set, without, member, is_truthy_value, Result, ok, err, ◌>>=◌,
}
use haechi.Audit.{canonicalize, sanitize_fields}
use haechi.Audit.Chain.Records.{
  Anchors, Fault, Line, Previous, add_anchor, add_anchors, attest, audit_integrity, blank,
  event_hash_key, hash_at, next_sequence, not_a_number, parsed, previous_hash_key, previous_hash_of,
  read_anchors, read_optional, sequence_key, set_hash, syntax_error, timestamp_key, type_error,
  unparsable, unsigned_integrity,
}
pub mod Records
pub mod Steps
pub mod Honest
pub mod Anchoring
pub mod Recorded
pub mod Reads
pub mod Linked
pub mod Commits
pub mod Anchored

pub data Reason : Type 0 where
  missing_integrity : Reason
  sequence_mismatch : Reason
  previous_hash_mismatch : Reason
  event_hash_mismatch : Reason
  anchor_hash_mismatch : ℕ → Reason
  tail_truncation : ℕ → ℕ → Reason

-- Valid, with the number of records, the head's hash and the anchors' number and last sequence.
pub data Verdict : Type 0 where
  valid : ℕ → Option Text → Option (ℕ × ℕ) → Verdict
  invalid : ℕ → Reason → Verdict

pub record Cursor : Type 0 where
  previous_hash : Option Text
  sequence : ℕ
  records : ℕ

abbrev pub first_cursor : Cursor
first_cursor = record { previous_hash = none; sequence = 1; records = 0 }

pub data Step : Type 0 where
  stopped : Verdict → Step
  running : Cursor → Step

abbrev pub is_number : ℕ → Option Json → Bool
is_number n (some (number m)) = m == n
is_number n _ = false

-- `(v ?? null) === expected`
abbrev pub is_previous : Option Text → Option Json → Bool
unfolding text_eq
is_previous none none = true
is_previous none (some null) = true
is_previous (some h) (some (string t)) = text_eq t h
is_previous _ _ = false

abbrev pub is_text : Text → Option Json → Bool
unfolding text_eq
is_text h (some (string t)) = text_eq t h
is_text h _ = false

-- The record without its own hash. A record with a sequence in its integrity is two objects.
unfoldable pub unsigned_record : Json → Json → Json
unfolding set without
unsigned_record (object fs) (object integrity) =
    object (set audit_integrity (object (without event_hash_key integrity)) fs)
unsigned_record v _ = v

abbrev pub differs : Text → Option Text → Bool
unfolding text_eq
differs h none = false
differs h (some g) = not (text_eq g h)

-- The anchors attest another hash at a sequence.
unfoldable pub contradicts : Option Anchors → ℕ → Text → Bool
unfolding hash_at
contradicts none n h = false
contradicts (some a) n h = differs h (hash_at n a.by_sequence)

abbrev pub conclude : Option Anchors → Step → Verdict
conclude a (stopped v) = v
conclude none (running c) = valid c.records c.previous_hash none
conclude (some a) (running c) =
    if ltb c.records a.last_sequence
    then invalid c.records (tail_truncation c.records a.last_sequence)
    else valid c.records c.previous_hash (some (length a.by_sequence, a.last_sequence))

-- The last line that is not blank.
unfoldable pub last_line : List Line → Option Line
last_line [] = none
last_line (blank ∷ ls) = last_line ls
last_line (l ∷ ls) = let later = last_line ls in elim later [ none ↦ some l | some k ↦ some k ]

abbrev pub with_sequence : Option Json → Json → Result Fault (Option Previous)
unfolding member
with_sequence (some (number n)) v =
    ok (some record { sequence = n; event_hash = member event_hash_key v })
with_sequence _ v = err not_a_number

abbrev pub previous_of : Option Json → Result Fault (Option Previous)
unfolding is_truthy_value member
previous_of none = ok none
previous_of (some v) =
    if is_truthy_value v then with_sequence (member sequence_key v) v else ok none

unfoldable pub last_integrity : Option Line → Result Fault (Option Previous)
unfolding is_truthy_value member
last_integrity none = ok none
last_integrity (some blank) = ok none
last_integrity (some unparsable) = err syntax_error
last_integrity (some (parsed null)) = err type_error
last_integrity (some (parsed v)) = previous_of (member audit_integrity v)

-- The log and the anchor stream that a sink writes.
pub record Files : Type 0 where
  pub log : List Line
  pub anchor_stream : List Line

abbrev pub with_timestamp : Option Json → Fields
with_timestamp none = stop
with_timestamp (some t) = field timestamp_key t stop

abbrev pub anchor_line : ℕ → Text → Option Json → Line
anchor_line n h t =
    parsed
      (object (field sequence_key (number n) (field event_hash_key (string h) (with_timestamp t))))

-- `every` is none where the mode is "none".
abbrev pub write_anchor : Option ℕ → ℕ → Text → Option Json → List Line → List Line
write_anchor none n h t stream = stream
write_anchor (some every) n h t stream =
    if n % every == 0 then stream ++ anchor_line n h t ∷ [] else stream

abbrev pub no_files : Files
no_files = record { log = []; anchor_stream = [] }

module _ (sha256 : Text → Text) where
  unfoldable pub hash_of : Option Previous → Fields → Text
  unfolding unsigned_integrity set canonicalize
  hash_of p event =
      sha256 (canonicalize (object (set audit_integrity (object (unsigned_integrity p)) event)))

  unfoldable pub build_integrity_record : Option Previous → Fields → Fields
  unfolding hash_of
  build_integrity_record p event =
      set audit_integrity
        (object (set event_hash_key (string (hash_of p event)) (unsigned_integrity p)))
        (set audit_integrity (object (unsigned_integrity p)) event)

  -- `record` of the sink.
  unfoldable pub record_event : Option ℕ → Fields → Files → Result Fault Files
  unfolding build_integrity_record last_integrity last_line sanitize_fields get
  record_event every event f = do
    p ← last_integrity (last_line f.log)
    ok record {
      log = f.log ++ parsed (object (build_integrity_record p (sanitize_fields event))) ∷ [];
      anchor_stream =
          write_anchor every (next_sequence p) (hash_of p (sanitize_fields event))
            (get timestamp_key (sanitize_fields event)) f.anchor_stream;
    }

  -- The calls of `record`, which the queue and the store's lock put in an order.
  unfoldable pub record_events : Option ℕ → List Fields → Files → Result Fault Files
  unfolding record_event
  record_events every [] f = ok f
  record_events every (event ∷ events) f = record_event every event f >>= record_events every events

  unfoldable pub verify_integrity : Option Anchors → Cursor → Json → Option Json → Step
  unfolding canonicalize unsigned_record is_truthy_value member contradicts
  verify_integrity a c value none = stopped (invalid c.records missing_integrity)
  verify_integrity a c value (some integrity) =
      let expected = sha256 (canonicalize (unsigned_record value integrity)) in
      if not (is_truthy_value integrity)
      then stopped (invalid c.records missing_integrity)
      else if not (is_number c.sequence (member sequence_key integrity))
      then stopped (invalid c.records sequence_mismatch)
      else if not (is_previous c.previous_hash (member previous_hash_key integrity))
      then stopped (invalid c.records previous_hash_mismatch)
      else if not (is_text expected (member event_hash_key integrity))
      then stopped (invalid c.records event_hash_mismatch)
      else if contradicts a c.sequence expected
      then stopped (invalid c.records (anchor_hash_mismatch c.sequence))
      else running record {
        previous_hash = some expected;
        sequence = c.sequence + 1;
        records = c.records + 1;
      }

  unfoldable pub verify_line : Option Anchors → Cursor → Line → Result Fault Step
  unfolding verify_integrity
  verify_line a c blank = ok (running c)
  verify_line a c unparsable = err syntax_error
  verify_line a c (parsed null) = err type_error
  verify_line a c (parsed v) = ok (verify_integrity a c v (member audit_integrity v))

  unfoldable pub verify_lines : Option Anchors → Cursor → List Line → Result Fault Step
  unfolding verify_line
  verify_lines a c [] = ok (running c)
  verify_lines a c (l ∷ ls) = verify_line a c l >>= λ s. elim s [
    | stopped v ↦ ok (stopped v)
    | running d ↦ verify_lines a d ls
  ]

  unfoldable pub verify_audit_chain : Option (List Line) → List Line → Result Fault Verdict
  unfolding verify_lines
  verify_audit_chain anchor_lines log = do
    a ← read_optional anchor_lines
    s ← verify_lines a first_cursor log
    ok (conclude a s)
