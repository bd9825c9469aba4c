-- ===== src/Core/Events.antt =====
-- The audit event of a payload: `summarize`, `shapeOnly` and `buildAuditEvent`, and which modes enforce. The
-- clock's and the random fields of an event are left out, and its confidence is as in a detection.
use haechi.Prelude.{
  ℕ, zero, suc, String, Bool, not, Option, none, some, List, [], ◌∷◌, any, map, length, or_default,
  str_eq, Dict, Text, utf16, Json, null, boolean, number, string, array, object, Items, end, item,
  Fields, stop, field,
}
use haechi.Stream.{stringify}
use haechi.Core.{Kind}
use haechi.Core.Precision.{PrecisionAudit, bump}
use haechi.Core.Transform.{Item}

-- `NO_ENFORCE_MODES`
abbrev pub no_enforce_modes : List String
no_enforce_modes = "dry-run" ∷ "report-only" ∷ []

unfoldable pub is_enforced : String → Bool
is_enforced mode = not (any (str_eq mode) no_enforce_modes)

-- The identity fields that the audit schema holds.
pub record AuditIdentity : Type 0 where
  pub id : Text
  pub type : Text
  pub subject_hash : Text
  pub issuer_hash : Text
  pub provider : Text

pub record Context : Type 0 where
  pub mode : Option String
  pub direction : Option Text
  pub correlation_id : Option Text
  pub protocol : Option Text
  pub operation : Option Text
  pub identity : Option AuditIdentity
  pub profile : Option Text

pub record Summary : Type 0 where
  pub detection_count : ℕ
  pub by_type : Dict ℕ
  pub by_action : Dict ℕ
  pub suppressed : Option (ℕ × Dict ℕ)
  pub dropped : Option (ℕ × Dict ℕ)

pub record AuditDetection : Type 0 where
  pub type : String
  pub rule_id : String
  pub path : Text
  pub kind : Kind
  pub confidence : Option ℕ
  pub action : String
  pub enforced : Bool

pub record AuditEvent : Type 0 where
  pub correlation_id : Option Text
  pub protocol : Text
  pub operation : Text
  pub identity : Option AuditIdentity
  pub profile : Option Text
  pub mode : String
  pub enforced : Bool
  pub blocked : Bool
  pub payload_shape_hash : Text
  pub detections : List AuditDetection
  pub summary : Summary

-- Counts by a name.
unfoldable pub tally : List String → Dict ℕ → Dict ℕ
unfolding bump
tally [] m = m
tally (name ∷ names) m = tally names (bump name m)

abbrev pub counted : ℕ → Dict ℕ → Option (ℕ × Dict ℕ)
counted zero by_type = none
counted (suc n) by_type = some (suc n, by_type)

abbrev pub type_of : Item → String
type_of i = i.detection.type

abbrev pub action_of : Item → String
action_of i = i.action

unfoldable pub summarize : List Item → PrecisionAudit → Summary
unfolding tally
summarize items audit = record {
  detection_count = length items;
  by_type = tally (map type_of items) [];
  by_action = tally (map action_of items) [];
  suppressed = counted audit.suppressed_count audit.suppressed_by_type;
  dropped = counted audit.dropped_count audit.dropped_by_type;
}

abbrev pub shape : String → Fields → Json
shape type fs = object (field (utf16 "type") (string (utf16 type)) fs)

unfoldable mutual
  pub shape_only : Json → Json
  shape_only (string s) = shape "string" (field (utf16 "length") (number (length s)) stop)
  shape_only (array xs) = array (shape_items xs)
  shape_only (object fs) = object (shape_fields fs)
  shape_only null = shape "null" stop
  shape_only (boolean b) = shape "boolean" stop
  shape_only (number n) = shape "number" stop

  pub shape_items : Items → Items
  shape_items end = end
  shape_items (item v xs) = item (shape_only v) (shape_items xs)

  pub shape_fields : Fields → Fields
  shape_fields stop = stop
  shape_fields (field k v fs) = field k (shape_only v) (shape_fields fs)

abbrev pub audit_detection : Bool → Item → AuditDetection
audit_detection enforced i = record {
  type = i.detection.type;
  rule_id = i.detection.rule_id;
  path = i.detection.path_text;
  kind = i.detection.kind;
  confidence = i.detection.confidence;
  action = i.action;
  enforced = enforced;
}

unfoldable pub build_audit_event :
    (Text → Text) → Context → String → Bool → Bool → Json → List Item → PrecisionAudit → AuditEvent
unfolding summarize shape_only stringify
build_audit_event short_hash context mode enforced blocked payload items audit = record {
  correlation_id = context.correlation_id;
  protocol = or_default context.protocol (utf16 "custom");
  operation = or_default context.operation (utf16 "protect");
  identity = context.identity;
  profile = context.profile;
  mode = mode;
  enforced = enforced;
  blocked = blocked;
  payload_shape_hash = short_hash (stringify (shape_only payload));
  detections = map (audit_detection enforced) items;
  summary = summarize items audit;
}
