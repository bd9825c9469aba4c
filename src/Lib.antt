-- ===== src/Lib.antt =====
-- Haechi, a gateway that inspects the JSON payloads of language-model traffic, verified.
--
-- The program. A payload's texts are scanned for personal data and secrets (packages/filter); the
-- detections go through the operator's precision controls (packages/core); a policy decides an action
-- for each (packages/policy, with the regional baselines of packages/privacy-profiles); and the texts
-- are rewritten by these actions, or the request is blocked (packages/core). What was done is written
-- to a log of records, each with the hash of the one before (packages/audit).
--
-- The files.
--   Prelude: tests on numbers, lists, JavaScript objects as association lists (Objects), strings as
--     UTF-16 code units (Utf16), the values of JSON (JsonValue), the stable sort (Sort), errors as
--     values (Results).
--   Policy: packages/policy/index.mjs. `build_policy` is `buildPolicy`, with `merge_action`,
--     `merge_entries`, `merge_presets` for `mergeAction` and its loops; `validate_policy`; `decide`.
--     Policy.Chosen has which action is set where several are stated,
--     Policy.Actions has the actions and their strengths, Policy.Profiles
--     `createPolicyProfiles` and `resolve`.
--   Privacy: packages/privacy-profiles/index.mjs, `apply_privacy_profile`.
--   Core: packages/core/index.mjs. Core.Entries has `collectStringEntries`; Core.Precision has
--     `compileAllowlist`, `isAllowlisted` and `applyPrecisionControls`; Core.Transform has
--     `transformString`, `replacementFor` and `maskSensitive`; Core.Payload has `transformPayload`;
--     Core.Events has the audit event; Core.Protect composes them to `protectJson`; Core.StreamProtector is
--     `createStreamProtector`, an instance of the interface of Stream.Inspect.
--   Filter: packages/filter/index.mjs. Filter.Overlaps has `removeOverlaps`; Filter.Luhn,
--     Filter.Verhoeff and Filter.Iban have `luhnValid`, `verhoeffValid`, `inAadhaarValid`, `ibanValid`.
--   Audit: packages/audit/index.mjs, `canonicalize` and `sanitize_audit`, with Audit.Canonical and
--     Audit.Sanitize about them. Audit.Chain has `buildIntegrityRecord`, the sink's `record` and
--     `writeAnchor`, and `verifyAuditChain`, Audit.Chain.Records the lines of a file and `readAnchors`; the other
--     children have the proofs.
--   Vault: packages/token-vault/index.mjs, `create_token_vault` with `record_vault_event`. Vault.Store has
--     the records and `pruneExpiredView`; Vault.Tokenize has `tokenize`; Vault.Operations has `reveal`, `detokenize`, `purge`,
--     `purge_expired` and `export_metadata`; Vault.Calls runs sequences of them. The other children are
--     named for what they prove; Vault.Refines has the abstract vault, a function from texts to
--     records. Vault.Failures has `reveal` over a store and a sink that may throw. Vault.Lock has `withFileLock` as a step relation on processes and the lock file; packages/audit
--     has the same lock.
--   Stream: packages/stream-filter/index.mjs. Stream.Splitter has `createFrameSplitter`, Stream.Frames
--     `parseFrame` and the two serializers, Stream.Paths the path functions, and Stream.Inspect
--     `inspectResponseStream` with its loops over chunks and frames. The protector is an interface, and
--     `JSON.parse` a parameter.
--   Auth: packages/auth/index.mjs, `claims_error` for the checks of `addToken` and `buildExternalIdentity`,
--     `build_identity`, `build_external_identity` and `bearer_token_from_request`. Auth.Tokens has
--     `addToken`, `listTokens` and `revokeToken`, Auth.Authenticate the provider's `authenticate`.
--   Crypto: packages/crypto/index.mjs, the key file with `loadKeyFile`, `initLocalKeyFile` and
--     `readNonceBudget`. Crypto.Budget has `reserveNonceWindow` and `consumeNonceBudget`, with the events that
--     change a key file; Crypto.Overlap has two calls whose awaited steps interleave.
--   Proxy: packages/proxy/index.mjs. Proxy.RateLimiter has `createRateLimiter`: `allow` with the clock's
--     value as an argument, and `sweep_expired` over the map in insertion order; Windows counts a key's requests in
--     a minute, and Again is about the minute after.
--
-- Conventions. An object with text keys is an association list in insertion order, and a name of
-- Object.prototype is not used as a key, but for the scopes that a binding is asked for. A configuration comes from JSON: `none` is an absent field,
-- and null is modelled where the code tells it apart. A thrown error is a value of `Result`, or `none`
-- where only the fact matters. Asynchronous calls are made in the order in which the code awaits them.
-- A confidence is a number of hundredths. The numbers in an audit event, in a line of a log or of an anchor
-- stream, and in a payload are natural ones, printed in digits: -0, which prints as 0, the infinities that
-- 1e999 parses to, which print as null, negative numbers and fractions are left out. An event has no
-- undefined field. The loops run over lists, so no fuel is used but for the digits of a number, which
-- the number itself bounds, for the splitter's loop, which the
-- buffer's length bounds, and for the numbering of a renamed key, which the object's members bound.
--
-- Not modelled. The regular expressions, cryptography, files, sockets and processes: SHA-256 is a
-- parameter of the audit chain and the crypto provider one of the vault; the vault and the provider
-- enter `transform_string` as a parameter with a state of its own. A vault's operation is one step: the
-- queue and the store's lock put the mutations in an order; its sink takes every event and its store can be
-- read, except in Vault.Failures, where `reveal` is modelled with both throwing. Where a transformation throws, the state that the
-- calls before it have left is a parameter, `after_throw`. Of the filter the rules themselves and the
-- checksums of other countries are left out, of the proxy all but the rate limiter, of the audit package
-- the reading of a log's tail by chunks and the summary of a log, and of the crypto package the envelope.
-- Other parts of the repository have no file here: packages/ssrf, packages/protocol-adapters,
-- packages/metrics, packages/policy-bundle, packages/plugin, packages/mcp-stdio and packages/cli, which are
-- mostly input and output around the modelled parts, and the satellites, which have versions of their own.
pub mod Vault
pub mod Auth
pub mod Crypto
pub mod Stream
pub mod Audit
pub mod Prelude
pub mod Policy
pub mod Privacy
pub mod Core
pub mod Filter
pub mod Proxy
