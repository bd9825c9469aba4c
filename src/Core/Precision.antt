-- ===== src/Core/Precision.antt =====
-- The precision controls: the compiled allowlist, and the loop that keeps, suppresses or drops each
-- detection and counts what it removes.
pub mod Laws
pub mod Allow
use haechi.Prelude.{
  ℕ, ◌+◌, String, Bool, true, false, not, ◌&&◌, ◌||◌, Option, none, some, List, [], ◌∷◌, ◌++◌,
  str_eq, ltb, if◌then◌else◌, any, or_default, Dict, lookup, insert, Text, text_eq,
}
use haechi.Core.{Detection}

-- `HARD_BLOCK_TYPES` of packages/filter/index.mjs.
unfoldable pub hard_block_types : List String
hard_block_types =
    "secret" ∷ "api_key" ∷ "kr_rrn" ∷ "card" ∷ "fr_nir" ∷ "es_dni" ∷ "it_codice_fiscale" ∷ "sg_nric"
    ∷ []

unfoldable pub is_hard_block : String → Bool
unfolding hard_block_types
is_hard_block type = any (str_eq type) hard_block_types

-- An entry of the configured allowlist: a text, or an object with a value, a path or both.
pub data AllowEntry : Type 0 where
  bare : Text → AllowEntry
  object : Option Text → Option Text → AllowEntry

pub record Pair : Type 0 where
  pub value : Text
  pub path : Text

pub record Allowlist : Type 0 where
  pub values : List Text
  pub paths : List Text
  pub pairs : List Pair

abbrev pub empty_allowlist : Allowlist
empty_allowlist = record { values = []; paths = []; pairs = [] }

-- One round of `compileAllowlist`; a set is a list, in which only membership counts.
unfoldable pub add_entry : AllowEntry → Allowlist → Allowlist
add_entry (bare s) a = record a { values = s ∷ a.values }
add_entry (object (some v) (some p)) a = record a {
  pairs = a.pairs ++ record { value = v; path = p } ∷ [];
}
add_entry (object (some v) none) a = record a { values = v ∷ a.values }
add_entry (object none (some p)) a = record a { paths = p ∷ a.paths }
add_entry (object none none) a = a

unfoldable pub add_entries : List AllowEntry → Allowlist → Allowlist
unfolding add_entry
add_entries [] a = a
add_entries (e ∷ es) a = add_entries es (add_entry e a)

-- `none` is a configuration that is no array.
unfoldable pub compile_allowlist : Option (List AllowEntry) → Option Allowlist
unfolding add_entries
compile_allowlist none = none
compile_allowlist (some []) = none
compile_allowlist (some (e ∷ es)) = some (add_entries (e ∷ es) empty_allowlist)

unfoldable pub is_allowlisted : Detection → Option Allowlist → Bool
is_allowlisted d none = false
is_allowlisted d (some a) =
    any (text_eq d.value) a.values
    || any (text_eq d.path_text) a.paths
    || any (λ p. text_eq d.value p.value && text_eq d.path_text p.path) a.pairs

-- `Number.isFinite(confidence) && confidence < minConfidence`
abbrev pub is_low : Option ℕ → ℕ → Bool
is_low none min_confidence = false
is_low (some c) min_confidence = ltb c min_confidence

pub record PrecisionAudit : Type 0 where
  pub suppressed_count : ℕ
  pub suppressed_by_type : Dict ℕ
  pub dropped_count : ℕ
  pub dropped_by_type : Dict ℕ

pub record Controlled : Type 0 where
  pub kept : List Detection
  pub audit : PrecisionAudit

-- `m[type] = (m[type] ?? 0) + 1`
unfoldable pub bump : String → Dict ℕ → Dict ℕ
bump type m = insert type (or_default (lookup type m) 0 + 1) m

abbrev suppress : Detection → Controlled → Controlled
suppress d c = record c {
  audit = record (c.audit) {
    suppressed_count = c.audit.suppressed_count + 1;
    suppressed_by_type = bump d.type c.audit.suppressed_by_type;
  };
}

abbrev drop_low : Detection → Controlled → Controlled
drop_low d c = record c {
  audit = record (c.audit) {
    dropped_count = c.audit.dropped_count + 1;
    dropped_by_type = bump d.type c.audit.dropped_by_type;
  };
}

abbrev keep : Detection → Controlled → Controlled
keep d c = record c { kept = c.kept ++ d ∷ [] }

module _ (min_confidence : ℕ) (allowlist : Option Allowlist) where
  -- One round of the loop.
  unfoldable pub control : Detection → Controlled → Controlled
  control d c =
      if not (is_hard_block d.type) && is_allowlisted d allowlist
      then suppress d c
      else if not (is_hard_block d.type) && is_low d.confidence min_confidence
      then drop_low d c
      else keep d c

  unfoldable pub control_all : List Detection → Controlled → Controlled
  control_all [] c = c
  control_all (d ∷ ds) c = control_all ds (control d c)

  unfoldable pub apply_precision_controls : List Detection → Controlled
  unfolding control_all
  apply_precision_controls ds = control_all ds (record {
    kept = [];
    audit = record {
      suppressed_count = 0;
      suppressed_by_type = [];
      dropped_count = 0;
      dropped_by_type = [];
    };
  })
