-- ===== src/Core/Protect/Outcome.antt =====
-- What `protectJson` returns and records.
use haechi.Prelude.{
  ◌≡◌, ◌⊎◌, refl, sym, ap, inl, inr, String, Bool, true, false, ◌&&◌, Option, none, some, List, [],
  ◌∷◌, ◌++◌, any, or_default, Result, ok, err, Json,
}
use haechi.Core.{Detection}
use haechi.Core.Precision.{PrecisionAudit, apply_precision_controls, compile_allowlist}
use haechi.Core.Entries.{Entry, collect_string_entries}
use haechi.Core.Transform.{Item, Provider, World}
use haechi.Core.Payload.{transform_payload}
use haechi.Core.Events.{is_enforced, Context, build_audit_event, AuditEvent, summarize}
use haechi.Core.Protect.{
  max_nesting_depth, Config, engine_of, decide_all, is_block, ProtectError, Protected, Core,
  recorded, finished, payload_of, Delivery, delivered, refused, broken, delivery, audit_failed,
  transformed, protect_items, protect_entries, protect_json,
}

module _ (provider : Provider) (config : Config) where
  -- What a result says of the log: the event of an answer is its last record, and has the answer's verdict;
  -- an answer that is blocked has no payload, and one that is not has one. An error records nothing, or it is
  -- the sink's, which threw with the event in the log.
  abbrev pub IsAudited :
      Core provider config → Result ProtectError Protected × Core provider config → Type 0
  IsAudited core (ok p, after) =
      (after.log ≡ core.log ++ p.audit_event ∷ [])
      × (p.audit_event.blocked ≡ p.blocked)
      × (((p.blocked ≡ true) × (p.payload ≡ none))
          ⊎ ((p.blocked ≡ false) × ((v : Json) × (p.payload ≡ some v))))
  IsAudited core (err e, after) =
      (after.log ≡ core.log)
      ⊎ ((e ≡ audit_failed)
          × ((event : AuditEvent) × (config.sink event ≡ broken)
              × (after.log ≡ core.log ++ event ∷ [])))

  -- An answer fits its verdict.
  abbrev Fits : Bool → Option Json → Type 0
  Fits true o = o ≡ none
  Fits false o = (v : Json) × (o ≡ some v)

  finished-IsAudited :
      (context : Context) (mode : String) (enforced blocked : Bool) (payload : Json)
      (items : List Item) (audit : PrecisionAudit) (out : Option (Option Json × World provider))
      (core : Core provider config)
      → ((o : Option Json × World provider) → out ≡ some o → Fits blocked o.0)
      → IsAudited core
          (finished provider config context mode enforced blocked payload items audit out core)
  unfolding finished build_audit_event recorded
  finished-IsAudited context mode enforced blocked payload items audit none core f = inl refl
  finished-IsAudited context mode enforced blocked payload items audit (some o) core f =
      on_delivery
        (config.sink
          (build_audit_event provider.short_hash context mode enforced blocked payload items audit))
        refl
    where
      verdict :
          (b : Bool) (o : Option Json)
          → Fits b o
          → ((b ≡ true) × (o ≡ none)) ⊎ ((b ≡ false) × ((v : Json) × (o ≡ some v)))
      verdict true o h = inl (refl, h)
      verdict false o h = inr (refl, h)

      p : Protected
      p = record {
        payload = o.0;
        blocked = blocked;
        summary = summarize items audit;
        audit_event =
            build_audit_event provider.short_hash context mode enforced blocked payload items audit;
        issued_tokens = o.1.issued;
      }

      on_delivery :
          (d : Delivery)
          → config.sink p.audit_event ≡ d
          → IsAudited core (delivery provider config d p (record core { state = o.1.state }))
      on_delivery delivered e = (refl, refl, verdict blocked o.0 (f o refl))
      on_delivery refused e = inl refl
      on_delivery broken e = inr (refl, (p.audit_event, e, refl))

  transformed-Fits :
      (enforced blocked : Bool) (payload : Json) (items : List Item) (w : World provider)
      (o : Option Json × World provider)
      → transformed provider config enforced blocked payload items w ≡ some o
      → Fits blocked o.0
  unfolding transformed
  transformed-Fits enforced true payload items w o h = sym (ap (λ x. x.0) (same h))
    where
      same :
          {s t : Option Json × World provider}
          → ◌≡◌ {A = Option (Option Json × World provider)} (some s) (some t)
          → s ≡ t
      same e = cc
  transformed-Fits enforced false payload items w o h =
      on_payload (transform_payload provider enforced payload items w) h
    where
      same :
          {s t : Option Json × World provider}
          → ◌≡◌ {A = Option (Option Json × World provider)} (some s) (some t)
          → s ≡ t
      same e = cc

      on_payload :
          (r : Option (Json × World provider))
          → payload_of provider config r ≡ some o
          → (v : Json) × (o.0 ≡ some v)
      on_payload none h = cc
      on_payload (some r) h = (r.0, sym (ap (λ x. x.0) (same h)))

  protect_items-IsAudited :
      (context : Context) (mode : String) (enforced : Bool) (payload : Json) (items : List Item)
      (audit : PrecisionAudit) (core : Core provider config)
      → IsAudited core
          (protect_items provider config context mode enforced payload items audit core)
  unfolding protect_items
  protect_items-IsAudited context mode enforced payload items audit core =
      let blocked = enforced && any is_block items in
      let w : World provider = record { state = core.state; issued = [] } in
      finished-IsAudited context mode enforced blocked payload items audit
        (transformed provider config enforced blocked payload items w) core
        (λ o e. transformed-Fits enforced blocked payload items w o e)

  protect_entries-IsAudited :
      (engine : Option (Detection → Context → String → String)) (context : Context) (mode : String)
      (payload : Json) (entries : Option (List Entry)) (core : Core provider config)
      → IsAudited core (protect_entries provider config engine context mode payload entries core)
  unfolding protect_entries
  protect_entries-IsAudited engine context mode payload none core = inl refl
  protect_entries-IsAudited engine context mode payload (some entries) core =
      let controlled =
        apply_precision_controls (or_default config.min_confidence 0)
          (compile_allowlist config.allowlist) (config.detect entries context) in
      protect_items-IsAudited context mode (is_enforced mode) payload
        (decide_all (engine_of engine config) context mode controlled.kept) controlled.audit core

  -- Every answer of `protectJson` is audited: it comes with its event as the one new record of the log, with
  -- the answer's verdict, and it has a payload exactly if it is not blocked. Where it throws, for the nesting,
  -- the transformation or the sink, the log is what it was, unless it is the sink that threw after it had
  -- persisted the event: then that event is the one new record.
  pub protect_json-IsAudited :
      (engine : Option (Detection → Context → String → String)) (context : Context) (payload : Json)
      (core : Core provider config)
      → IsAudited core (protect_json provider config engine context payload core)
  unfolding protect_json
  protect_json-IsAudited engine context payload core =
      protect_entries-IsAudited engine context (or_default context.mode config.mode) payload
        (collect_string_entries provider.short_hash (max_nesting_depth config.max_depth) payload [])
        core
