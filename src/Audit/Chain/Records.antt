-- ===== src/Audit/Chain/Records.antt =====
-- packages/audit/index.mjs: the lines of a log, the integrity that the next record takes from the last
-- one's, and the anchors that an anchor stream holds.
use haechi.Prelude.{
  ℕ, ◌+◌, max, Option, none, some, List, [], ◌∷◌, ◌==◌, if◌then◌else◌, or_default, Text, utf16,
  Json, null, number, string, Fields, stop, field, member, Result, ok, err, ◌>>=◌,
}

abbrev pub audit_integrity : Text
audit_integrity = utf16 "auditIntegrity"

abbrev pub sequence_key : Text
sequence_key = utf16 "sequence"

abbrev pub previous_hash_key : Text
previous_hash_key = utf16 "previousHash"

abbrev pub event_hash_key : Text
event_hash_key = utf16 "eventHash"

abbrev pub timestamp_key : Text
timestamp_key = utf16 "timestamp"

-- A line of a JSONL file, as `JSON.parse` takes it.
pub data Line : Type 0 where
  blank : Line
  unparsable : Line
  parsed : Json → Line

-- What a call throws: `JSON.parse`, or a property of null. `not_a_number` stands for what the model
-- leaves out, a last record of the log whose sequence is no number.
pub data Fault : Type 0 where
  syntax_error : Fault
  type_error : Fault
  not_a_number : Fault

-- What the next record takes from the last one's integrity.
pub record Previous : Type 0 where
  pub sequence : ℕ
  pub event_hash : Option Json

abbrev pub next_sequence : Option Previous → ℕ
next_sequence none = 1
next_sequence (some p) = p.sequence + 1

abbrev pub previous_hash_of : Option Previous → Json
previous_hash_of none = null
previous_hash_of (some p) = or_default p.event_hash null

unfoldable pub unsigned_integrity : Option Previous → Fields
unsigned_integrity p = field (utf16 "alg") (string (utf16 "sha256")) (
    field (utf16 "canonicalization") (string (utf16 "json-stable-v1")) (
      field sequence_key (number (next_sequence p))
        (field previous_hash_key (previous_hash_of p) stop)))

pub record Anchors : Type 0 where
  pub by_sequence : List (ℕ × Text)
  pub last_sequence : ℕ

unfoldable pub hash_at : ℕ → List (ℕ × Text) → Option Text
hash_at n [] = none
hash_at n ((k, h) ∷ m) = if k == n then some h else hash_at n m

unfoldable pub set_hash : ℕ → Text → List (ℕ × Text) → List (ℕ × Text)
set_hash n h [] = (n, h) ∷ []
set_hash n h ((k, g) ∷ m) = if k == n then (k, h) ∷ m else (k, g) ∷ set_hash n h m

unfoldable pub attest : Anchors → Option Json → Option Json → Anchors
unfolding set_hash
attest a (some (number n)) (some (string h)) = record {
  by_sequence = set_hash n h a.by_sequence;
  last_sequence = max a.last_sequence n;
}
attest a _ _ = a

-- A line of the anchor stream; a partial one is passed over.
unfoldable pub add_anchor : Anchors → Line → Result Fault Anchors
unfolding member
add_anchor a (parsed null) = err type_error
add_anchor a (parsed v) = ok (attest a (member sequence_key v) (member event_hash_key v))
add_anchor a _ = ok a

unfoldable pub add_anchors : Anchors → List Line → Result Fault Anchors
unfolding add_anchor
add_anchors a [] = ok a
add_anchors a (l ∷ ls) = add_anchor a l >>= λ b. add_anchors b ls

unfoldable pub read_anchors : List Line → Result Fault Anchors
unfolding add_anchors
read_anchors ls = add_anchors record { by_sequence = []; last_sequence = 0 } ls

abbrev pub read_optional : Option (List Line) → Result Fault (Option Anchors)
read_optional none = ok none
read_optional (some ls) = read_anchors ls >>= λ a. ok (some a)
