-- ===== src/Core/Tests.antt =====
-- Runs of the core's parts, and the theorems about them at concrete payloads.
use haechi.Prelude.{
  ℕ, ◌+◌, ◌≡◌, arith, refl, true, Option, none, some, List, [], ◌∷◌, ◌++◌, String, Text, utf16,
  text_eq, length, lookup, insert,
}
use haechi.Prelude.Sort.{sort}
use haechi.Core.{Detection, in_value}
use haechi.Core.Precision.{
  Allowlist, is_allowlisted, is_hard_block, control, apply_precision_controls, bump,
}
use haechi.Core.Precision.Laws.{apply_precision_controls_partition}
use haechi.Core.Transform.{Item, Provider, World, replacement_for, transform_string}
use haechi.Core.Transform.Chunks.{Chunk, items_of}
use haechi.Core.Transform.Layouts.{IsRendered, transform_string-render}

abbrev detected : String → Text → Option ℕ → Detection
detected type value confidence = record {
  type = type;
  rule_id = type;
  path = [];
  path_text = utf16 "key_0";
  kind = in_value;
  value = value;
  start = 0;
  end = length value;
  confidence = confidence;
}

abbrev phone : Detection
phone = detected "phone" (utf16 "010-1234-5678") (some 60)

abbrev card : Detection
card = detected "card" (utf16 "4111111111111111") (some 75)

abbrev email : Detection
email = detected "email" (utf16 "a@b.example") (some 95)

-- The operator allows the card's number and the email; the threshold is above all but the email.
abbrev allowed : Option Allowlist
allowed = some (record { values = card.value ∷ email.value ∷ []; paths = []; pairs = [] })

controlled : (apply_precision_controls 90 allowed (phone ∷ card ∷ email ∷ [])).kept ≡ card ∷ []
unfolding apply_precision_controls control is_allowlisted is_hard_block text_eq bump lookup insert
controlled = refl

-- A vault that numbers its tokens, and a crypto provider that fails.
abbrev numbering : Provider
numbering = record {
  State = ℕ;
  has_vault = true;
  tokenize = λ segment d n. some (utf16 "tok_" ++ (b'0' + n) ∷ [], n + 1);
  encrypt = λ segment d n. none;
  short_hash = λ t. utf16 "000000000000";
  after_throw = λ payload items state. state;
}

abbrev start : World numbering
start = record { state = 0; issued = [] }

abbrev chunk : String → String → String → String → Chunk
chunk gap segment type action = record {
  gap = utf16 gap;
  segment = utf16 segment;
  detection = detected type (utf16 segment) none;
  action = action;
}

abbrev call_me : List Chunk
call_me =
    chunk "call " "010-1234-5678" "phone" "mask" ∷ chunk " or " "a@b.example" "email" "redact" ∷ []

rewritten :
    transform_string numbering
      (utf16 "call 010-1234-5678 or a@b.example now")
      (items_of 0 call_me)
      start
    ≡ some (utf16 "call 01*********78 or [REDACTED:email] now", start)
unfolding transform_string replacement_for items_of sort
rewritten = refl

abbrev at : ℕ → ℕ → String → Item
at from to action = record { detection = record phone { start = from; end = to }; action = action }

-- Out of order, one that is allowed, and one that begins inside another.
abbrev mixed : List Item
mixed = at 22 33 "redact" ∷ at 0 4 "allow" ∷ at 10 20 "mask" ∷ at 5 18 "mask" ∷ []

rewritten_mixed :
    transform_string numbering (utf16 "call 010-1234-5678 or a@b.example now") mixed start
    ≡ some (utf16 "call 01*********78 or [REDACTED:phone] now", start)
unfolding transform_string replacement_for sort
rewritten_mixed = refl

transform_string-render_example :
    IsRendered numbering
      (utf16 "call 010-1234-5678 or a@b.example now")
      mixed
      start
      (transform_string numbering (utf16 "call 010-1234-5678 or a@b.example now") mixed start)
transform_string-render_example =
    transform_string-render numbering (utf16 "call 010-1234-5678 or a@b.example now") mixed start (
      (omega arith, omega arith),
      ((omega arith, omega arith), ((omega arith, omega arith), ((omega arith, omega arith), tt))),
    )

abbrev write_to : String → List Chunk
write_to address = chunk "to " address "email" "redact" ∷ []

apply_precision_controls_partition_example :
    (apply_precision_controls 90 allowed (phone ∷ card ∷ email ∷ [])).kept ≡ card ∷ []
unfolding is_hard_block is_allowlisted text_eq
apply_precision_controls_partition_example =
    (apply_precision_controls_partition 90 allowed (phone ∷ card ∷ email ∷ [])).0
