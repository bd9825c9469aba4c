-- ===== src/Core/Protect/Verdicts.antt =====
-- What `protectJson` blocks, and what it leaves alone.
use haechi.Prelude.{
  ◌≡◌, refl, sym, ap, ◌∙◌, inl, inr, String, true, false, Option, none, some, List, [], ◌∷◌, arith,
  any, In, or_default, str_eq, eq_refl, Json,
}
use haechi.Core.{Detection}
use haechi.Core.Precision.{
  PrecisionAudit, is_hard_block, apply_precision_controls, compile_allowlist,
}
use haechi.Core.Precision.Laws.{apply_precision_controls-hard_block}
use haechi.Core.Entries.{Entry, collect_string_entries}
use haechi.Core.Transform.{Item, Provider}
use haechi.Core.Payload.{transform_payload}
use haechi.Core.Events.{is_enforced, Context, summarize, build_audit_event}
use haechi.Core.Protect.{
  max_nesting_depth, Config, engine_of, decide_all, is_block, Protected, Core, recorded, finished,
  transformed, protect_items, protect_entries, protect_json,
}

module _ (provider : Provider) (config : Config) where
  decide_all-is_block :
      (engine : Detection → Context → String → String) (context : Context) (mode : String)
      (d : Detection) (ds : List Detection)
      → In d ds
      → engine d context mode ≡ "block"
      → any is_block (decide_all engine context mode ds) ≡ true
  decide_all-is_block engine context mode d [] m h = elim m [ ]
  decide_all-is_block engine context mode d (e ∷ ds) (inl s) h =
      let here : str_eq (engine e context mode) "block" ≡ true =
        rw (ap (λ x. engine x context mode) (sym s) ∙ h) (eq_refl "block") in
      rw here refl
  decide_all-is_block engine context mode d (e ∷ ds) (inr m) h =
      ground (arith, decide_all-is_block engine context mode d ds m h)

  protect_items_blocked :
      (context : Context) (mode : String) (payload : Json) (items : List Item)
      (audit : PrecisionAudit) (core : Core provider config)
      → any is_block items ≡ true
      → protect_items provider config context mode true payload items audit core
        ≡ recorded provider config
            record {
              payload = none;
              blocked = true;
              summary = summarize items audit;
              audit_event =
                  build_audit_event provider.short_hash context mode true true payload items audit;
              issued_tokens = [];
            }
            core.state
            core
  unfolding protect_items finished transformed
  protect_items_blocked context mode payload items audit core b = rw b refl

  -- A detection of a hard-block type that the policy decides to block blocks the payload in every mode that
  -- enforces, whatever the confidence threshold and the allowlist are: the answer, once recorded, is
  -- blocked, has no payload and no token, and neither the vault nor the crypto provider was called.
  pub protect_json-hard_block :
      (engine : Option (Detection → Context → String → String)) (context : Context) (payload : Json)
      (core : Core provider config) (entries : List Entry) (d : Detection)
      → is_enforced (or_default context.mode config.mode) ≡ true
      → collect_string_entries provider.short_hash (max_nesting_depth config.max_depth) payload []
        ≡ some entries
      → In d (config.detect entries context)
      → is_hard_block d.type ≡ true
      → engine_of engine config d context (or_default context.mode config.mode) ≡ "block"
      → (p : Protected) × (p.payload ≡ none)
        × (p.blocked ≡ true)
        × (p.audit_event.blocked ≡ true)
        × (p.issued_tokens ≡ [])
        × (protect_json provider config engine context payload core
            ≡ recorded provider config p core.state core)
  unfolding protect_json protect_entries build_audit_event
  protect_json-hard_block engine context payload core entries d f c m h b =
      let mode = or_default context.mode config.mode in
      let controlled =
        apply_precision_controls (or_default config.min_confidence 0)
          (compile_allowlist config.allowlist) (config.detect entries context) in
      let kept =
        apply_precision_controls-hard_block (or_default config.min_confidence 0)
          (compile_allowlist config.allowlist) (config.detect entries context) d m h in
      let items = decide_all (engine_of engine config) context mode controlled.kept in
      let blocks =
        decide_all-is_block (engine_of engine config) context mode d controlled.kept kept.0 b in
      (
        record {
          payload = none;
          blocked = true;
          summary = summarize items controlled.audit;
          audit_event =
              build_audit_event provider.short_hash context mode true true payload items
                controlled.audit;
          issued_tokens = [];
        },
        refl,
        refl,
        refl,
        refl,
        rw (c, f) (protect_items_blocked context mode payload items controlled.audit core blocks),
      )

  protect_items_unenforced :
      (context : Context) (mode : String) (payload : Json) (items : List Item)
      (audit : PrecisionAudit) (core : Core provider config)
      → protect_items provider config context mode false payload items audit core
        ≡ recorded provider config
            record {
              payload = some payload;
              blocked = false;
              summary = summarize items audit;
              audit_event =
                  build_audit_event provider.short_hash context mode false false payload items
                    audit;
              issued_tokens = [];
            }
            core.state
            core
  unfolding protect_items finished transformed transform_payload
  protect_items_unenforced context mode payload [] audit core = refl
  protect_items_unenforced context mode payload (i ∷ items) audit core = refl

  -- In the modes that do not enforce, a payload within the nesting limit is answered as it is and never
  -- blocked, whatever is detected and decided; no token is made, and the event says so.
  pub protect_json-unenforced :
      (engine : Option (Detection → Context → String → String)) (context : Context) (payload : Json)
      (core : Core provider config) (entries : List Entry)
      → is_enforced (or_default context.mode config.mode) ≡ false
      → collect_string_entries provider.short_hash (max_nesting_depth config.max_depth) payload []
        ≡ some entries
      → (p : Protected) × (p.payload ≡ some payload)
        × (p.blocked ≡ false)
        × (p.audit_event.enforced ≡ false)
        × (p.issued_tokens ≡ [])
        × (protect_json provider config engine context payload core
            ≡ recorded provider config p core.state core)
  unfolding protect_json protect_entries build_audit_event
  protect_json-unenforced engine context payload core entries f c =
      let mode = or_default context.mode config.mode in
      let controlled =
        apply_precision_controls (or_default config.min_confidence 0)
          (compile_allowlist config.allowlist) (config.detect entries context) in
      let items = decide_all (engine_of engine config) context mode controlled.kept in
      (
        record {
          payload = some payload;
          blocked = false;
          summary = summarize items controlled.audit;
          audit_event =
              build_audit_event provider.short_hash context mode false false payload items
                controlled.audit;
          issued_tokens = [];
        },
        refl,
        refl,
        refl,
        refl,
        rw (c, f) (protect_items_unenforced context mode payload items controlled.audit core),
      )
