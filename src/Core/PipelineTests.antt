-- ===== src/Core/PipelineTests.antt =====
-- Runs of the whole pipeline, with an engine that detects a card's number in a text, and the theorems about it
-- at concrete payloads.
use haechi.Prelude.{
  ℕ, ◌≤◌, ◌≡◌, ◌∙◌, ap, refl, sym, inl, inr, String, true, false, Option, none, some, List, [], ◌∷◌,
  leb, ltb, if◌then◌else◌, arith, length, drop, take, In, is_some, str_eq, text_eq, utf16, Json,
  null, number, string, array, object, end, item, Fields, stop, field, get,
}
use haechi.Prelude.Sort.{sort}
use haechi.Audit.{decimal}
use haechi.Stream.Paths.{Part, key, index, get_by_path}
use haechi.Core.{Kind, in_value, in_key, in_number, Detection}
use haechi.Core.Precision.{bare, is_hard_block}
use haechi.Core.Entries.{Entry, entry, collect_string_entries, safe_path_to_string}
use haechi.Core.Entries.Depth.{depth, collect_string_entries-depth}
use haechi.Core.Transform.{Provider, replacement_for}
use haechi.Core.Payload.{transform_payload, transform_groups, has_own, free_key}
use haechi.Core.Payload.FreshKey.{free_key-has_own}
use haechi.Core.Events.{Context, is_enforced}
use haechi.Core.Protect.{delivered, Config, Protected, Core, protect_json, recorded}
use haechi.Core.Protect.Verdicts.{protect_json-hard_block}
use haechi.Core.Protect.Outcome.{IsAudited, protect_json-IsAudited}
use haechi.Core.StreamProtector.{StreamState, push, detect_text}
use haechi.Core.StreamProtector.Commits.{AreDisjoint, AreForward, IsUncut, push-IsUncut}
use haechi.Core.StreamProtector.Lossless.{emitted, emitted-concat}

abbrev provider : Provider
provider = record {
  State = ℕ;
  has_vault = false;
  tokenize = λ s d n. none;
  encrypt = λ s d n. none;
  short_hash = λ s. take 4 s;
  after_throw = λ payload items state. state;
}

abbrev found : Entry → Detection
found e = record {
  type = "card";
  rule_id = "card";
  path = e.path;
  path_text = e.path_text;
  kind = e.kind;
  value = take 4 e.value;
  start = 0;
  end = 4;
  confidence = some 75;
}

-- An entry of four units or more begins with a match.
abbrev find_in : List Entry → List Detection
find_in [] = []
find_in (e ∷ es) = if ltb (length e.value) 4 then find_in es else found e ∷ find_in es

abbrev config : String → Config
config mode = record {
  mode = mode;
  max_depth = some 2;
  min_confidence = some 90;
  allowlist = some (bare (utf16 "4111") ∷ []);
  detect = λ entries context. find_in entries;
  decide = λ d context mode. if str_eq d.type "card" then "block" else "allow";
  sink = λ e. delivered;
}

abbrev masks : Option (Detection → Context → String → String)
masks = some (λ d context mode. "mask")

abbrev context : Context
context = record {
  mode = none;
  direction = none;
  correlation_id = none;
  protocol = none;
  operation = none;
  identity = none;
  profile = none;
}

abbrev core : (mode : String) → Core provider (config mode)
core mode = record { state = 0; log = [] }

abbrev payload : Json
payload =
    object (field (utf16 "a") (array (item (string (utf16 "4111")) (item (number 7) end))) stop)

abbrev deep : Json
deep = array (item payload end)

abbrev entry_at : List Part → String → Kind → Entry
unfolding entry
entry_at path text kind = entry provider.short_hash path (utf16 text) kind

abbrev entries : List Entry
unfolding entry_at
entries =
    entry_at (key (utf16 "a") ∷ []) "a" in_key
    ∷ entry_at (key (utf16 "a") ∷ index 0 ∷ []) "4111" in_value
    ∷ entry_at (key (utf16 "a") ∷ index 1 ∷ []) "7" in_number
    ∷ []

collected : collect_string_entries provider.short_hash 2 payload [] ≡ some entries
unfolding collect_string_entries entries entry_at decimal
collected = refl

named :
    safe_path_to_string provider.short_hash (key (utf16 "name") ∷ index 3 ∷ key (utf16 "x") ∷ [])
    ≡ utf16 "key_name[3].key_x"
unfolding safe_path_to_string
named = refl

collect_string_entries-depth_example :
    is_some (collect_string_entries provider.short_hash 2 deep []) ≡ leb (depth deep) 2
collect_string_entries-depth_example = collect_string_entries-depth provider.short_hash 2 deep

-- The key is taken, and so is the first number for it.
abbrev members : Fields
members = field (utf16 "k") null (field (utf16 "k#2") null stop)

free_key-has_own_example : has_own (free_key (utf16 "k") members) members ≡ false
free_key-has_own_example = free_key-has_own (utf16 "k") members

third : free_key (utf16 "k") members ≡ utf16 "k#3"
unfolding free_key get text_eq
third = refl

-- A value and a key are masked, each at its place.
rewritten :
    transform_payload provider true
      (object (field (utf16 "4111") (string (utf16 "to 4111")) stop))
      (record {
        detection = record (found (entry_at (key (utf16 "4111") ∷ []) "to 4111" in_value)) {
          start = 3;
          end = 7;
        };
        action = "mask";
      }
        ∷ record {
          detection = found (entry_at (key (utf16 "4111") ∷ []) "4111" in_key);
          action = "redact";
        }
        ∷ [])
      record { state = 0; issued = [] }
    ≡ some (
      object (field (utf16 "[REDACTED:card]") (string (utf16 "to ****")) stop),
      record { state = 0; issued = [] },
    )
unfolding transform_payload transform_groups entry_at get_by_path sort replacement_for
rewritten = refl

protect_json-IsAudited_example :
    IsAudited provider
      (config "enforce")
      (core "enforce")
      (protect_json provider (config "enforce") masks context payload (core "enforce"))
protect_json-IsAudited_example =
    protect_json-IsAudited provider (config "enforce") masks context payload (core "enforce")

protect_json-hard_block_example :
    (p : Protected) × (p.payload ≡ none)
    × (p.blocked ≡ true)
    × (p.audit_event.blocked ≡ true)
    × (p.issued_tokens ≡ [])
    × (protect_json provider (config "enforce") none context payload (core "enforce")
        ≡ recorded provider (config "enforce") p 0 (core "enforce"))
unfolding is_enforced is_hard_block entries entry_at
protect_json-hard_block_example =
    protect_json-hard_block provider (config "enforce") none context payload (core "enforce")
      entries (found (entry_at (key (utf16 "a") ∷ index 0 ∷ []) "4111" in_value)) refl collected
      (inl refl) refl refl

abbrev held : StreamState ℕ
held = record { pending = utf16 "41"; by_type = []; by_action = []; detection_count = 0; state = 0 }

abbrev one : Detection
one = found (entry_at [] "4111 and more" in_value)

one_apart : AreDisjoint (one ∷ [])
one_apart d e (inl s) (inl t) = inl (s ∙ sym t)
one_apart d e (inr m) n = elim m [ ]
one_apart d e (inl s) (inr n) = elim n [ ]

one_forward : AreForward (one ∷ [])
unfolding entry_at
one_forward d (inl s) = let start : d.start ≡ 0 = ap (λ x. x.start) s in omega (arith, start)
one_forward d (inr m) = elim m [ ]

push-IsUncut_example :
    (commit : ℕ) × (commit ≤ 9)
    × ((push provider (config "enforce") masks context 4 (utf16 "11 and more") held).1.pending
        ≡ drop commit (utf16 "4111 and more"))
    × ((d : Detection)
        → In d (detect_text provider (config "enforce") masks context 4 (utf16 "4111 and more"))
        → IsUncut commit d)
unfolding detect_text entry_at
push-IsUncut_example =
    push-IsUncut provider (config "enforce") masks context 4 (utf16 "11 and more") held one_apart
      one_forward

emitted-concat_example :
    emitted provider (config "dry-run") masks context 4 (utf16 "11 and" ∷ utf16 " more" ∷ []) held
    ≡ some (utf16 "4111 and more")
unfolding is_enforced
emitted-concat_example =
    emitted-concat provider (config "dry-run") masks context 4 refl
      (utf16 "11 and" ∷ utf16 " more" ∷ []) held
