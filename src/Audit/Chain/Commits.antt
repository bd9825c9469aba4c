-- ===== src/Audit/Chain/Commits.antt =====
-- The head's hash fixes what every record of the log says.
use haechi.Prelude.{◌≡◌, ◌≢◌, Option, Text, Json, object, Fields, stop}
use mathlib.Core.Option
use haechi.Audit.Chain.Linked.{Linked}

module _ (sha256 : Text → Text) where
  -- Two texts with one hash.
  abbrev pub Collision : Type 0
  Collision = (s : Text) × (t : Text) × (s ≢ t) × (sha256 s ≡ sha256 t)

  fields_of : Json → Fields
  fields_of (object fs) = fs
  fields_of _ = stop
