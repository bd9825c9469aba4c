-- ===== src/Proxy/RateLimiter/Again.antt =====
-- A key that has used its limit up is allowed again.
use haechi.Prelude.{
  ℕ, zero, suc, ◌+◌, ◌≤◌, ◌≡◌, refl, inl, inr, String, true, Bool-cases, Option, none, some, List,
  [], ◌∷◌, All, arith, leb, length, Dict, lookup, insert, str_eq, subst,
}
use haechi.Proxy.RateLimiter.{
  Slot, window_ms, is_expired, sweep_expired, swept, sweep_threshold, sweep_budget, count_in,
  open_window, decide_slot, allow, Request,
}
use haechi.Proxy.RateLimiter.Windows.{IsIdle, idle_lookup, swept-IsIdle}

-- The map after a run of requests.
unfoldable pub run : List Request → Dict Slot → Dict Slot
unfolding allow
run [] windows = windows
run (r ∷ rs) windows = run rs (allow r.key r.limit r.now windows).1

-- Every window is over at a time.
abbrev IsOver : ℕ → Dict Slot → Type 0
IsOver now windows = All (λ e. e.1.window_start + window_ms ≤ now) windows

insert-IsOver :
    (key : String) (now : ℕ) (s : Slot) (windows : Dict Slot)
    → s.window_start + window_ms ≤ now
    → IsOver now windows
    → IsOver now (insert key s windows)
unfolding insert
insert-IsOver key now s [] l o = (l, tt)
insert-IsOver key now s ((k, t) ∷ windows) l o = elim (Bool-cases (str_eq k key)) [
  | inl e ↦ rw e (l, o.1)
  | inr e ↦ rw e (o.0, insert-IsOver key now s windows l o.1)
]

sweep_expired-IsOver :
    (now at budget : ℕ) (windows : Dict Slot)
    → IsOver now windows
    → IsOver now (sweep_expired at budget windows)
unfolding sweep_expired
sweep_expired-IsOver now at zero windows o = o
sweep_expired-IsOver now at (suc budget) [] o = o
sweep_expired-IsOver now at (suc budget) ((k, s) ∷ windows) o =
    let ih = sweep_expired-IsOver now at budget windows o.1 in
    elim (Bool-cases (is_expired at s)) [ inl x ↦ rw x ih | inr x ↦ rw x (o.0, ih) ]

swept-IsOver :
    (now at : ℕ) (windows : Dict Slot) → IsOver now windows → IsOver now (swept at windows)
unfolding swept
swept-IsOver now at windows o = elim (Bool-cases (leb sweep_threshold (length windows))) [
  | inl x ↦ rw x (sweep_expired-IsOver now at sweep_budget windows o)
  | inr x ↦ rw x o
]

lookup-IsOver :
    (key : String) (now : ℕ) (s : Slot) (windows : Dict Slot)
    → lookup key windows ≡ some s
    → IsOver now windows
    → s.window_start + window_ms ≤ now
unfolding lookup
lookup-IsOver key now s [] e o = cc
lookup-IsOver key now s ((k, t) ∷ windows) e o = elim (Bool-cases (str_eq k key)) [
  | inl g ↦ subst (λ x. x.window_start + window_ms ≤ now) (same t s (rw g at e)) o.0
  | inr g ↦ lookup-IsOver key now s windows (rw g at e) o.1
]
  where
    same : (t s : Slot) → ◌≡◌ {A = Option Slot} (some t) (some s) → t ≡ s
    same t s e = cc

decide_slot-IsOver :
    (key : String) (limit at now : ℕ) (o : Option Slot) (windows : Dict Slot)
    → at + window_ms ≤ now
    → IsOver now windows
    → ((s : Slot) → o ≡ some s → s.window_start + window_ms ≤ now)
    → IsOver now (decide_slot key limit at o windows).1
unfolding decide_slot open_window count_in
decide_slot-IsOver key limit at now none windows l w h = insert-IsOver key now _ windows l w
decide_slot-IsOver key limit at now (some s) windows l w h = elim (Bool-cases (is_expired at s)) [
  | inl x ↦ rw x (insert-IsOver key now _ windows l w)
  | inr x ↦ elim (Bool-cases (leb limit s.count)) [
    | inl y ↦ rw (x, y) w
    | inr y ↦ rw (x, y) (insert-IsOver key now _ windows (h s refl) w)
  ]
]

run-IsOver :
    (now : ℕ) (rs : List Request) (windows : Dict Slot)
    → All (λ r. r.now + window_ms ≤ now) rs
    → IsOver now windows
    → IsOver now (run rs windows)
unfolding run allow
run-IsOver now [] windows l o = o
run-IsOver now (r ∷ rs) windows l o =
    let left = swept-IsOver now r.now windows o in
    run-IsOver now rs (allow r.key r.limit r.now windows).1 l.1 (
      decide_slot-IsOver r.key r.limit r.now now (lookup r.key (swept r.now windows))
        (swept r.now windows) l.0 left
        (λ s e. lookup-IsOver r.key now s (swept r.now windows) e left))

IsOver-IsIdle :
    (key : String) (now : ℕ) (windows : Dict Slot) → IsOver now windows → IsIdle key now windows
IsOver-IsIdle key now [] o = tt
IsOver-IsIdle key now ((k, s) ∷ windows) o =
    (inr (ground (arith, o.0)), IsOver-IsIdle key now windows o.1)

-- No client is locked out for longer than a minute. Whatever requests of whatever keys a limiter has seen, a
-- request of any key under any limit is allowed once all of them are a minute old.
pub allow-run :
    (key : String) (limit now : ℕ) (rs : List Request)
    → All (λ r. r.now + window_ms ≤ now) rs
    → (allow key limit now (run rs [])).0 ≡ true
unfolding allow open_window
allow-run key limit now rs l =
    rw
      (idle_lookup key now limit (swept now (run rs [])) (swept now (run rs [])) (
        swept-IsIdle key now (run rs [])
          (IsOver-IsIdle key now (run rs []) (run-IsOver now rs [] l tt))))
      refl
