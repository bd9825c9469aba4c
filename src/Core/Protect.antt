-- ===== src/Core/Protect.antt =====
-- `createHaechi` and its `protectJson`. The filter engine, the policy engine and the audit sink are
-- parameters.
pub mod Outcome
pub mod Verdicts
use haechi.Prelude.{
  ℕ, zero, suc, ◌+◌, String, Bool, true, false, not, ◌&&◌, ◌||◌, Option, none, some, List, [], ◌∷◌,
  ◌++◌, ltb, if◌then◌else◌, any, map, length, or_default, str_eq, Result, ok, err, Dict, Text,
  utf16, Json, null, boolean, number, string, array, object, Items, end, item, Fields, stop, field,
}
use haechi.Stream.{stringify}
use haechi.Core.{Kind, Detection}
use haechi.Core.Precision.{
  Allowlist, AllowEntry, PrecisionAudit, bump, apply_precision_controls, compile_allowlist,
}
use haechi.Core.Entries.{Entry, collect_string_entries}
use haechi.Core.Transform.{Item, Provider, World}
use haechi.Core.Payload.{transform_payload}
use haechi.Core.Events.{
  AuditDetection, AuditEvent, AuditIdentity, Context, Summary, action_of, audit_detection,
  build_audit_event, counted, is_enforced, no_enforce_modes, shape, shape_fields, shape_items,
  shape_only, summarize, tally, type_of,
}

-- `Number.isInteger(n) && n > 0 ? n : DEFAULT_MAX_NESTING_DEPTH`
abbrev pub max_nesting_depth : Option ℕ → ℕ
max_nesting_depth none = 256
max_nesting_depth (some zero) = 256
max_nesting_depth (some (suc n)) = suc n

-- What the sink does with an event: it persists it, it throws and persists nothing, or it throws after the
-- event is in the log, as where the anchor cannot be written.
pub data Delivery : Type 0 where
  delivered refused broken : Delivery

-- What `createHaechi` is given. The policy decides by the detection, the context and the mode.
pub record Config : Type 0 where
  pub mode : String
  pub max_depth : Option ℕ
  pub min_confidence : Option ℕ
  pub allowlist : Option (List AllowEntry)
  pub detect : List Entry → Context → List Detection
  pub decide : Detection → Context → String → String
  pub sink : AuditEvent → Delivery

-- A profile's engine in place of the configured one.
abbrev pub engine_of :
    Option (Detection → Context → String → String) → Config → Detection → Context → String → String
engine_of none config = config.decide
engine_of (some engine) config = engine

abbrev pub decide_all :
    (Detection → Context → String → String) → Context → String → List Detection → List Item
decide_all engine context mode [] = []
decide_all engine context mode (d ∷ ds) =
    record { detection = d; action = engine d context mode } ∷ decide_all engine context mode ds

abbrev pub is_block : Item → Bool
is_block i = str_eq i.action "block"

pub data ProtectError : Type 0 where
  too_deeply_nested transform_failed audit_failed : ProtectError

pub record Protected : Type 0 where
  pub payload : Option Json
  pub blocked : Bool
  pub summary : Summary
  pub audit_event : AuditEvent
  pub issued_tokens : List Text

module _ (provider : Provider) (config : Config) where
  -- The state of the vault and the provider, and the audit log.
  pub record Core : Type 0 where
    pub state : provider.State
    pub log : List AuditEvent

  -- What `recordAudit` leaves, by what the sink does.
  abbrev pub delivery : Delivery → Protected → Core → Result ProtectError Protected × Core
  delivery delivered p core = (ok p, record core { log = core.log ++ p.audit_event ∷ [] })
  delivery refused p core = (err audit_failed, core)
  delivery broken p core = (err audit_failed, record core { log = core.log ++ p.audit_event ∷ [] })

  unfoldable pub recorded : Protected → provider.State → Core → Result ProtectError Protected × Core
  recorded p state core = delivery (config.sink p.audit_event) p (record core { state = state })

  -- The rest of the function once the transformation has ended, or has thrown.
  unfoldable pub finished :
      Context
      → String
      → Bool
      → Bool
      → Json
      → List Item
      → PrecisionAudit
      → Option (Option Json × World provider)
      → Core
      → Result ProtectError Protected × Core
  unfolding build_audit_event
  finished context mode enforced blocked payload items audit none core =
      (err transform_failed, record core { state = provider.after_throw payload items core.state })
  finished context mode enforced blocked payload items audit (some out) core =
      let event =
        build_audit_event provider.short_hash context mode enforced blocked payload items audit in
      recorded
        record {
          payload = out.0;
          blocked = blocked;
          summary = summarize items audit;
          audit_event = event;
          issued_tokens = out.1.issued;
        }
        out.1.state core

  abbrev pub payload_of : Option (Json × World provider) → Option (Option Json × World provider)
  payload_of none = none
  payload_of (some out) = some (some out.0, out.1)

  unfoldable pub transformed :
      Bool → Bool → Json → List Item → World provider → Option (Option Json × World provider)
  unfolding transform_payload
  transformed enforced true payload items w = some (none, w)
  transformed enforced false payload items w =
      payload_of (transform_payload provider enforced payload items w)

  unfoldable pub protect_items :
      Context
      → String
      → Bool
      → Json
      → List Item
      → PrecisionAudit
      → Core
      → Result ProtectError Protected × Core
  unfolding finished transformed
  protect_items context mode enforced payload items audit core =
      let blocked = enforced && any is_block items in
      finished context mode enforced blocked payload items audit
        (transformed enforced blocked payload items record { state = core.state; issued = [] }) core

  unfoldable pub protect_entries :
      Option (Detection → Context → String → String)
      → Context
      → String
      → Json
      → Option (List Entry)
      → Core
      → Result ProtectError Protected × Core
  unfolding apply_precision_controls compile_allowlist protect_items is_enforced
  protect_entries engine context mode payload none core = (err too_deeply_nested, core)
  protect_entries engine context mode payload (some entries) core =
      let controlled =
        apply_precision_controls (or_default config.min_confidence 0)
          (compile_allowlist config.allowlist) (config.detect entries context) in
      protect_items context mode (is_enforced mode) payload
        (decide_all (engine_of engine config) context mode controlled.kept) controlled.audit core

  unfoldable pub protect_json :
      Option (Detection → Context → String → String)
      → Context
      → Json
      → Core
      → Result ProtectError Protected × Core
  unfolding protect_entries collect_string_entries
  protect_json engine context payload core =
      protect_entries engine context (or_default context.mode config.mode) payload
        (collect_string_entries provider.short_hash (max_nesting_depth config.max_depth) payload [])
        core
