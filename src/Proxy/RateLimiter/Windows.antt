-- ===== src/Proxy/RateLimiter/Windows.antt =====
-- A key's requests within a minute of the first one.
use haechi.Prelude.{
  ℕ, zero, suc, ◌+◌, ◌-◌, ◌<◌, max, min, ◌≡◌, refl, sym, subst, ap, ◌∙◌, ◌⊎◌, inl, inr, String,
  Bool, true, false, not, ◌&&◌, Bool-cases, Option, none, some, List, [], ◌∷◌, All, arith, leb,
  if◌then◌else◌, length, Dict, lookup, insert, lookup-insert, str_eq, eq_iff, eq_refl,
}
use haechi.Proxy.RateLimiter.{
  Slot, window_ms, is_expired, sweep_expired, swept, sweep_threshold, sweep_budget, count_in,
  open_window, decide_slot, allow, Request, granted, asked,
}

-- The sweep leaves a window that still runs.
lookup-sweep_expired :
    (now budget : ℕ) (key : String) (slot : Slot) (windows : Dict Slot)
    → is_expired now slot ≡ false
    → lookup key windows ≡ some slot
    → lookup key (sweep_expired now budget windows) ≡ some slot
unfolding sweep_expired lookup
lookup-sweep_expired now zero key slot windows e h = h
lookup-sweep_expired now (suc budget) key slot [] e h = h
lookup-sweep_expired now (suc budget) key slot ((k, s) ∷ windows) e h =
    elim (Bool-cases (str_eq k key)) [
      | inl g ↦
          let same : s ≡ slot = some_inj s slot (rw g at h) in
          let runs : is_expired now s ≡ false =
            subst (λ x. is_expired now x ≡ false) (sym same) e in
          rw (runs, g) (ap some same)
      | inr g ↦
          let later : lookup key windows ≡ some slot = (rw g at h) in
          let ih = lookup-sweep_expired now budget key slot windows e later in
          elim (Bool-cases (is_expired now s)) [ inl x ↦ rw x ih | inr x ↦ rw (x, g) ih ]
    ]
  where
    some_inj : (s t : Slot) → ◌≡◌ {A = Option Slot} (some s) (some t) → s ≡ t
    some_inj s t e = cc

lookup-swept :
    (now : ℕ) (key : String) (slot : Slot) (windows : Dict Slot)
    → is_expired now slot ≡ false
    → lookup key windows ≡ some slot
    → lookup key (swept now windows) ≡ some slot
unfolding swept
lookup-swept now key slot windows e h = elim (Bool-cases (leb sweep_threshold (length windows))) [
  | inl x ↦ rw x (lookup-sweep_expired now sweep_budget key slot windows e h)
  | inr x ↦ rw x h
]

lookup-insert_other :
    (key other : String) (s : Slot) (windows : Dict Slot)
    → str_eq other key ≡ false
    → lookup key (insert other s windows) ≡ lookup key windows
lookup-insert_other key other s windows d = rw (lookup-insert other key s windows, d) refl

lookup-insert_same :
    (key : String) (s : Slot) (windows : Dict Slot) → lookup key (insert key s windows) ≡ some s
lookup-insert_same key s windows = rw (lookup-insert key key s windows, eq_refl key) refl

decide_slot-other :
    (key other : String) (limit now : ℕ) (o : Option Slot) (windows : Dict Slot)
    → str_eq other key ≡ false
    → lookup key (decide_slot other limit now o windows).1 ≡ lookup key windows
unfolding decide_slot open_window count_in
decide_slot-other key other limit now none windows d = lookup-insert_other key other _ windows d
decide_slot-other key other limit now (some s) windows d = elim (Bool-cases (is_expired now s)) [
  | inl x ↦ rw x (lookup-insert_other key other _ windows d)
  | inr x ↦ elim (Bool-cases (leb limit s.count)) [
    | inl y ↦ rw (x, y) refl
    | inr y ↦ rw (x, y) (lookup-insert_other key other _ windows d)
  ]
]

-- A call for another key.
allow-other :
    (key other : String) (limit now : ℕ) (slot : Slot) (windows : Dict Slot)
    → is_expired now slot ≡ false
    → str_eq other key ≡ false
    → lookup key windows ≡ some slot
    → lookup key (allow other limit now windows).1 ≡ some slot
unfolding allow
allow-other key other limit now slot windows e d h =
    decide_slot-other key other limit now (lookup other (swept now windows)) (swept now windows) d
    ∙ lookup-swept now key slot windows e h

-- What a call for the key in its window answers and leaves.
abbrev Counts : String → ℕ → ℕ → ℕ → Bool × Dict Slot → Type 0
Counts key limit start n answer =
    (answer.0 ≡ not (leb limit n))
    × (lookup key answer.1
        ≡ some record { window_start = start; count = if leb limit n then n else n + 1 })

count_in-Counts :
    (key : String) (limit start n : ℕ) (windows : Dict Slot)
    → lookup key windows ≡ some record { window_start = start; count = n }
    → Counts key limit start n
        (count_in key limit record { window_start = start; count = n } windows)
unfolding count_in
count_in-Counts key limit start n windows h = elim (Bool-cases (leb limit n)) [
  | inl x ↦ rw x (refl, h)
  | inr x ↦ rw x (refl, lookup-insert_same key _ windows)
]

allow-Counts :
    (key : String) (limit now start n : ℕ) (windows : Dict Slot)
    → is_expired now record { window_start = start; count = n } ≡ false
    → lookup key windows ≡ some record { window_start = start; count = n }
    → Counts key limit start n (allow key limit now windows)
unfolding allow decide_slot
allow-Counts key limit now start n windows e h =
    let kept = lookup-swept now key record { window_start = start; count = n } windows e h in
    rw (kept, e) (count_in-Counts key limit start n (swept now windows) kept)

-- A request in the window that started at a time, and the key's own with a limit.
abbrev pub IsInWindow : String → ℕ → ℕ → Request → Type 0
IsInWindow key limit start r =
    (r.now < start + window_ms) × ((str_eq r.key key ≡ false) ⊎ (r.limit ≡ limit))

grants_step :
    (b : Bool) (rest limit n asked : ℕ)
    → b ≡ not (leb limit n)
    → rest ≡ min asked (limit - (if leb limit n then n else n + 1))
    → (if true && b then 1 + rest else rest) ≡ min (1 + asked) (limit - n)
grants_step b rest limit n asked e f = ground arith

limit_of : (b : Bool) (l limit : ℕ) → b ≡ true → (b ≡ false) ⊎ (l ≡ limit) → l ≡ limit
limit_of b l limit d (inl e) = cc
limit_of b l limit d (inr e) = e

granted-window :
    (key : String) (limit start n : ℕ) (rs : List Request) (windows : Dict Slot)
    → All (IsInWindow key limit start) rs
    → lookup key windows ≡ some record { window_start = start; count = n }
    → granted key rs windows ≡ min (asked key rs) (limit - n)
unfolding granted asked
granted-window key limit start n [] windows all h = omega arith
granted-window key limit start n (r ∷ rs) windows all h =
    let runs : is_expired r.now record { window_start = start; count = n } ≡ false =
      ground (arith, all.0.0) in
    elim (Bool-cases (str_eq r.key key)) [
      | inr d ↦ rw d (
          granted-window key limit start n rs (allow r.key r.limit r.now windows).1 all.1
            (allow-other key r.key r.limit r.now _ windows runs d h))
      | inl d ↦
          let k : r.key ≡ key = (eq_iff r.key key).0 d in
          let l : r.limit ≡ limit = limit_of (str_eq r.key key) r.limit limit d all.0.1 in
          let mine : Counts key limit start n (allow r.key r.limit r.now windows) =
            rw (k, l) (allow-Counts key limit r.now start n windows runs h) in
          rw d (
            grants_step _ _ limit n (asked key rs) mine.0 (
              granted-window key limit start (if leb limit n then n else n + 1) rs
                (allow r.key r.limit r.now windows).1 all.1 mine.1))
    ]

-- No window of the key is running.
abbrev pub IsIdle : String → ℕ → Dict Slot → Type 0
IsIdle key now windows = All (λ e. (str_eq e.0 key ≡ false) ⊎ (is_expired now e.1 ≡ true)) windows

sweep_expired-IsIdle :
    (key : String) (now budget : ℕ) (windows : Dict Slot)
    → IsIdle key now windows
    → IsIdle key now (sweep_expired now budget windows)
unfolding sweep_expired
sweep_expired-IsIdle key now zero windows i = i
sweep_expired-IsIdle key now (suc budget) [] i = i
sweep_expired-IsIdle key now (suc budget) ((k, s) ∷ windows) i =
    let ih = sweep_expired-IsIdle key now budget windows i.1 in
    elim (Bool-cases (is_expired now s)) [ inl x ↦ rw x ih | inr x ↦ rw x (i.0, ih) ]

pub swept-IsIdle :
    (key : String) (now : ℕ) (windows : Dict Slot)
    → IsIdle key now windows
    → IsIdle key now (swept now windows)
unfolding swept
swept-IsIdle key now windows i = elim (Bool-cases (leb sweep_threshold (length windows))) [
  | inl x ↦ rw x (sweep_expired-IsIdle key now sweep_budget windows i)
  | inr x ↦ rw x i
]

pub idle_lookup :
    (key : String) (now limit : ℕ) (windows all : Dict Slot)
    → IsIdle key now windows
    → decide_slot key limit now (lookup key windows) all ≡ open_window key now all
unfolding decide_slot lookup
idle_lookup key now limit [] all i = refl
idle_lookup key now limit ((k, s) ∷ windows) all i = elim (Bool-cases (str_eq k key)) [
  | inl g ↦ rw (g, expired_of (str_eq k key) (is_expired now s) g i.0) refl
  | inr g ↦ rw g (idle_lookup key now limit windows all i.1)
]
  where
    expired_of : (b x : Bool) → b ≡ true → (b ≡ false) ⊎ (x ≡ true) → x ≡ true
    expired_of b x d (inl e) = cc
    expired_of b x d (inr e) = e

-- A key whose windows are all over makes its first request, and a window starts. Of this request and
-- the key's next ones in that window, whatever other keys ask for in between and however often old
-- windows are swept, exactly as many are allowed as the limit says, but at least one, and all of them
-- if they are fewer.
pub granted-limit :
    (key : String) (limit start : ℕ) (rs : List Request) (windows : Dict Slot)
    → IsIdle key start windows
    → All (IsInWindow key limit start) rs
    → granted key (record { key = key; limit = limit; now = start } ∷ rs) windows
      ≡ min (1 + asked key rs) (max 1 limit)
unfolding granted allow open_window
granted-limit key limit start rs windows i all =
    rw
      (
        eq_refl key,
        idle_lookup key start limit _ (swept start windows) (swept-IsIdle key start windows i),
        granted-window key limit start 1 rs _ all (lookup-insert_same key _ (swept start windows)),
      )
      (omega arith)
