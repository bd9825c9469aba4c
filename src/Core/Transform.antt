-- ===== src/Core/Transform.antt =====
-- `transformString`, `replacementFor` and `maskSensitive`. The token vault and the crypto provider
-- are parameters with a state of their own; a call of either may throw. `encrypt` stands for the
-- provider's envelope as the base64url text of its JSON, `short_hash` for the first twelve digits of
-- SHA-256. `after_throw` is the state that the calls made for a payload before one of them threw have left.
pub mod Chunks
pub mod Layouts
pub mod Redaction
pub mod Mask
use haechi.Prelude.{
  ℕ, ◌-◌, String, Bool, true, false, not, ◌&&◌, Option, none, some, List, [], ◌∷◌, ◌++◌, str_eq,
  ltb, leb, if◌then◌else◌, filter, length, take, drop, slice, replicate, max, Text, utf16, Json,
}
use haechi.Prelude.Sort.{sort}
use haechi.Core.{Detection}

-- A detection with the action decided for it.
pub record Item : Type 0 where
  pub detection : Detection
  pub action : String

pub record Provider : Type 1 where
  pub State : Type 0
  pub has_vault : Bool
  pub tokenize : Text → Detection → State → Option (Text × State)
  pub encrypt : Text → Detection → State → Option (Text × State)
  pub short_hash : Text → Text
  pub after_throw : Json → List Item → State → State

abbrev pub stars : ℕ → Text
stars n = replicate n b'*'

unfoldable pub mask_sensitive : Text → Text
mask_sensitive value =
    let n = length value in
    if leb n 8 then stars n else take 2 value ++ (stars (max 4 (n - 4)) ++ drop (n - 2) value)

abbrev pub is_actionable : Item → Bool
is_actionable i = not (str_eq i.action "allow") && not (str_eq i.action "block")

abbrev pub starts_before : Item → Item → Bool
starts_before a b = leb a.detection.start b.detection.start

infixl 5 ◌>>=◌
abbrev pub ◌>>=◌ {ℓ κ} : {A : Type ℓ} {B : Type κ} → Option A → (A → Option B) → Option B
none >>= k = none
some a >>= k = k a

module _ (provider : Provider) where
  open provider use {State, has_vault, tokenize, encrypt, short_hash}

  -- The provider's state, and the tokens issued for this payload.
  pub record World : Type 0 where
    pub state : State
    pub issued : List Text

  abbrev pub bracketed : String → Text → Text
  bracketed label inner = utf16 label ++ (inner ++ utf16 "]")

  -- The case "tokenize" with a vault; the set of issued tokens is a list.
  unfoldable pub vault_marker : Text → Detection → World → Option (Text × World)
  vault_marker segment d w = do
    r ← tokenize segment d w.state
    some (bracketed "[TOKEN:" r.0, record { state = r.1; issued = w.issued ++ r.0 ∷ [] })

  unfoldable pub encryption_marker : Text → Detection → World → Option (Text × World)
  encryption_marker segment d w = do
    r ← encrypt segment d w.state
    some (bracketed "[HAECHI_ENC:" r.0, record w { state = r.1 })

  unfoldable pub replacement_for : Text → Detection → String → World → Option (Text × World)
  unfolding mask_sensitive vault_marker encryption_marker
  replacement_for segment d action w =
      if str_eq action "redact"
      then some (bracketed "[REDACTED:" (utf16 d.type), w)
      else if str_eq action "mask"
      then some (mask_sensitive segment, w)
      else if str_eq action "tokenize"
      then if has_vault
        then vault_marker segment d w
        else some (bracketed "[TOKEN:" (utf16 d.type ++ (utf16 ":" ++ short_hash segment)), w)
      else if str_eq action "encrypt"
      then encryption_marker segment d w
      else some (segment, w)

  -- The loop over the sorted items, with the cursor and the output so far.
  unfoldable pub rewrite_items : Text → ℕ → Text → List Item → World → Option (Text × World)
  rewrite_items value cursor output [] w = some (output ++ drop cursor value, w)
  rewrite_items value cursor output (i ∷ items) w = elim (ltb i.detection.start cursor) [
    | true ↦ rewrite_items value cursor output items w
    | false ↦ do
      r ← replacement_for (slice i.detection.start i.detection.end value) i.detection i.action w
      rewrite_items value i.detection.end ((output ++ slice cursor i.detection.start value) ++ r.0)
          items r.1
  ]

  unfoldable pub transform_string : Text → List Item → World → Option (Text × World)
  unfolding rewrite_items
  transform_string value items w =
      rewrite_items value 0 [] (sort starts_before (filter is_actionable items)) w
