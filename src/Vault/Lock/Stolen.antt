-- ===== src/Vault/Lock/Stolen.antt =====
-- Two processes that break one stale lock.
use haechi.Prelude.{
  ℕ, ◌-◌, ◌<◌, ◌≡◌, refl, sym, ap, ◌∙◌, false, Option, none, some, lt→ltb, ◌==◌, ==_iff, arith,
}
use haechi.Vault.Lock.{
  stale_lock_ms, Phase, holding, waiting, found, stale, System, set_phase, after_stat, Step, create,
  exists, look, remove, Reach, here, next,
}

-- What a state shows of two processes.
record Shows (s : System) (p : ℕ) (x : Phase) (q : ℕ) (y : Phase) (lock : Option ℕ) (now : ℕ)
    : Type 0 where
  first : s.phase p ≡ x
  second : s.phase q ≡ y
  file : s.lock ≡ lock
  time : s.now ≡ now

swap :
    {s : System} {p q : ℕ} {x y : Phase} {lock : Option ℕ} {now : ℕ}
    → Shows s p x q y lock now
    → Shows s q y p x lock now
swap v = record { first = v.second; second = v.first; file = v.file; time = v.time }

-- The first process moves.
moved :
    (s : System) (p q : ℕ) (x y z : Phase) (lock left : Option ℕ) (now : ℕ)
    → (p == q) ≡ false
    → Shows s p x q y lock now
    → Shows (record s { lock = left; phase = set_phase p z s.phase }) p z q y left now
unfolding set_phase
moved s p q x y z lock left now d v = record {
  first = rw ((==_iff p p).1 refl) refl;
  second = rw d v.second;
  file = refl;
  time = v.time;
}

-- A state that a run from a state reaches.
record Reached (s : System) (p : ℕ) (x : Phase) (q : ℕ) (y : Phase) (lock : Option ℕ) (now : ℕ)
    : Type 0 where
  state : System
  run : Reach s state
  shows : Shows state p x q y lock now

swap-Reached :
    (s : System) (p : ℕ) (x : Phase) (q : ℕ) (y : Phase) (lock : Option ℕ) (now : ℕ)
    → Reached s p x q y lock now
    → Reached s q y p x lock now
swap-Reached s p x q y lock now r = record { state = r.state; run = r.run; shows = swap r.shows }

module _ (s : System) (now : ℕ) (p q : ℕ) (apart : (p == q) ≡ false) where
  advance :
      (x y z : Phase) (lock left : Option ℕ)
      → ((t : System)
          → Shows t p x q y lock now
          → Step t (record t { lock = left; phase = set_phase p z t.phase }))
      → Reached s p x q y lock now
      → Reached s p z q y left now
  advance x y z lock left f r = record {
    state = record (r.state) { lock = left; phase = set_phase p z r.state.phase };
    run = next r.run (f r.state r.shows);
    shows = moved r.state p q x y z lock left now apart r.shows;
  }

  finds :
      (d created : ℕ) (y : Phase)
      → Reached s p (waiting d) q y (some created) now
      → Reached s p (found d) q y (some created) now
  finds d created y = advance (waiting d) y (found d) (some created) (some created) λ t v.
      exists p d created v.first v.file
        (ap (λ l. record t { lock = l; phase = set_phase p (found d) t.phase }) (sym v.file))

  sees_stale :
      (d created : ℕ) (y : Phase)
      → stale_lock_ms < now - created
      → Reached s p (found d) q y (some created) now
      → Reached s p (stale d) q y (some created) now
  unfolding after_stat
  sees_stale d created y old = advance (found d) y (stale d) (some created) (some created) λ t v.
      let looks : stale d ≡ after_stat t.now t.lock d =
        rw (v.time, v.file, lt→ltb stale_lock_ms (now - created) old) refl in
      look p d v.first (
        ap (λ l. record t { lock = l; phase = set_phase p (stale d) t.phase }) (sym v.file)
        ∙ ap (λ x. record t { phase = set_phase p x t.phase }) looks)

  -- It removes the file that is there, whichever it is, and creates its own.
  takes :
      (d : ℕ) (y : Phase) (lock : Option ℕ)
      → Reached s p (stale d) q y lock now
      → Reached s p holding q y (some now) now
  takes d y lock r =
      advance (waiting d) y holding none (some now)
        (λ t v.
          create p d v.first v.file (
            ap (λ n. record t { lock = some n; phase = set_phase p holding t.phase }) (sym v.time)))
        (advance (stale d) y (waiting d) lock none (λ t v. remove p d v.first refl) r)

-- The lock is not exclusive once a file is stale. Wherever two processes wait while the file there is more
-- than thirty seconds old, as one is that a crashed process has left, the run is possible in which both find
-- it stale before either removes it. The first removes it and creates its own, the second removes that one and
-- creates another, and both hold the lock.
pub holding-both :
    (s : System) (p q d e created : ℕ)
    → (p == q) ≡ false
    → s.phase p ≡ waiting d
    → s.phase q ≡ waiting e
    → s.lock ≡ some created
    → stale_lock_ms < s.now - created
    → (t : System) × Reach s t × (t.phase p ≡ holding) × (t.phase q ≡ holding)
holding-both s p q d e created apart hp hq hl old =
    let apart' : (q == p) ≡ false = ground arith in
    let swapped =
      λ (p : ℕ) (x : Phase) (q : ℕ) (y : Phase) (l : Option ℕ). swap-Reached s p x q y l s.now in
    let start : Reached s p (waiting d) q (waiting e) (some created) s.now = record {
      state = s;
      run = here;
      shows = record { first = hp; second = hq; file = hl; time = refl };
    } in
    let p_sees =
      sees_stale s s.now p q apart d created (waiting e) old
        (finds s s.now p q apart d created (waiting e) start) in
    let q_sees = sees_stale s s.now q p apart' e created (stale d) old (
      finds s s.now q p apart' e created (stale d)
        (swapped p (stale d) q (waiting e) (some created) p_sees)) in
    let p_holds =
      takes s s.now p q apart d (stale e) (some created)
        (swapped q (stale e) p (stale d) (some created) q_sees) in
    let both =
      takes s s.now q p apart' e holding (some s.now)
        (swapped p holding q (stale e) (some s.now) p_holds) in
    (both.state, both.run, both.shows.second, both.shows.first)
