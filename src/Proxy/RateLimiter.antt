-- ===== src/Proxy/RateLimiter.antt =====
-- packages/proxy/index.mjs, `createRateLimiter`: a counter per key in fixed windows of a minute, in a
-- map from which old windows are swept when it is large. The clock's value is an argument.
use haechi.Prelude.{
  ℕ, zero, suc, ◌+◌, ◌-◌, String, Bool, true, false, ◌&&◌, Option, none, some, List, [], ◌∷◌, leb,
  if◌then◌else◌, length, Dict, lookup, insert, str_eq,
}
pub mod Windows
pub mod Again

pub record Slot : Type 0 where
  pub window_start : ℕ
  pub count : ℕ

abbrev pub window_ms : ℕ
window_ms = 60000

abbrev pub sweep_threshold : ℕ
sweep_threshold = 1024

abbrev pub sweep_budget : ℕ
sweep_budget = 256

-- A clock that has gone back is in the window.
abbrev pub is_expired : ℕ → Slot → Bool
is_expired now slot = leb window_ms (now - slot.window_start)

-- `sweepExpired` on the first `budget` entries.
unfoldable pub sweep_expired : ℕ → ℕ → Dict Slot → Dict Slot
sweep_expired now zero windows = windows
sweep_expired now (suc budget) [] = []
sweep_expired now (suc budget) ((key, slot) ∷ windows) =
    let rest = sweep_expired now budget windows in
    if is_expired now slot then rest else (key, slot) ∷ rest

unfoldable pub swept : ℕ → Dict Slot → Dict Slot
unfolding sweep_expired
swept now windows =
    if leb sweep_threshold (length windows) then sweep_expired now sweep_budget windows else windows

abbrev pub count_in : String → ℕ → Slot → Dict Slot → Bool × Dict Slot
unfolding insert
count_in key limit slot windows =
    if leb limit slot.count
    then (false, windows)
    else (true, insert key (record slot { count = slot.count + 1 }) windows)

abbrev pub open_window : String → ℕ → Dict Slot → Bool × Dict Slot
unfolding insert
open_window key now windows = (true, insert key record { window_start = now; count = 1 } windows)

abbrev pub decide_slot : String → ℕ → ℕ → Option Slot → Dict Slot → Bool × Dict Slot
unfolding count_in open_window
decide_slot key limit now none windows = open_window key now windows
decide_slot key limit now (some slot) windows =
    if is_expired now slot then open_window key now windows else count_in key limit slot windows

-- `allow(key, limit)` when the clock shows `now`: the answer and the map after it.
unfoldable pub allow : String → ℕ → ℕ → Dict Slot → Bool × Dict Slot
unfolding swept decide_slot lookup
allow key limit now windows =
    decide_slot key limit now (lookup key (swept now windows)) (swept now windows)

pub record Request : Type 0 where
  pub key : String
  pub limit : ℕ
  pub now : ℕ

-- How many of a key's requests are allowed, in a run of requests of any keys.
unfoldable pub granted : String → List Request → Dict Slot → ℕ
unfolding allow
granted key [] windows = 0
granted key (r ∷ rs) windows =
    let answer = allow r.key r.limit r.now windows in
    let rest = granted key rs answer.1 in if str_eq r.key key && answer.0 then 1 + rest else rest

-- How many are asked for.
unfoldable pub asked : String → List Request → ℕ
asked key [] = 0
asked key (r ∷ rs) = let rest = asked key rs in if str_eq r.key key then 1 + rest else rest
