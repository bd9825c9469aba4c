-- ===== src/Prelude/JsonValue.antt =====
-- The values of `JSON.parse`, and what the code does with an object: reads, `{ ...o, key: value }`,
-- `const { key, ...rest } = o`. A number is a natural number.
use Prim.Native.Nat.{ℕ, zero}
use mathlib.Core.Path.{◌≡◌}
use mathlib.Core.Bool.{Bool, true, false}
use mathlib.Core.Option.{Option, none, some}
use mathlib.Core.List.{[]}
use native.Mathlib.Omega.{arith}
use haechi.Prelude.Tests.{if◌then◌else◌}
use haechi.Prelude.Utf16.{Text, text_eq, text_eq_iff}

mutual
  pub data Json : Type 0 where
    null : Json
    boolean : Bool → Json
    number : ℕ → Json
    string : Text → Json
    array : Items → Json
    object : Fields → Json

  pub data Items : Type 0 where
    end : Items
    item : Json → Items → Items

  -- The properties in the object's order.
  pub data Fields : Type 0 where
    stop : Fields
    field : Text → Json → Fields → Fields

unfoldable pub get : Text → Fields → Option Json
get k stop = none
get k (field j v fs) = if text_eq j k then some v else get k fs

-- `{ ...fs, [k]: v }`
unfoldable pub set : Text → Json → Fields → Fields
set k v stop = field k v stop
set k v (field j w fs) = if text_eq j k then field j v fs else field j w (set k v fs)

unfoldable pub without : Text → Fields → Fields
without k stop = stop
without k (field j v fs) = if text_eq j k then fs else field j v (without k fs)

-- `v[k]` of a value that is not null, where `k` is no name of a prototype.
unfoldable pub member : Text → Json → Option Json
unfolding get
member k (object fs) = get k fs
member k _ = none

-- `Boolean(v)`
unfoldable pub is_truthy_value : Json → Bool
is_truthy_value null = false
is_truthy_value (boolean b) = b
is_truthy_value (number zero) = false
is_truthy_value (string []) = false
is_truthy_value _ = true

pub get-set : (k : Text) (v : Json) (fs : Fields) → get k (set k v fs) ≡ some v
unfolding get set
get-set k v stop = ground (arith, text_eq_iff k k)
get-set k v (field j w fs) = ground (arith, text_eq_iff j k, get-set k v fs)

pub set-set : (k : Text) (v w : Json) (fs : Fields) → set k w (set k v fs) ≡ set k w fs
unfolding set
set-set k v w stop = ground (arith, text_eq_iff k k)
set-set k v w (field j u fs) = ground (arith, text_eq_iff j k, set-set k v w fs)
