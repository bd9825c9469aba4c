-- ===== src/Vault/Lock.antt =====
-- packages/token-vault/index.mjs: `withFileLock` with `acquireLock` and `isStaleLock`, which
-- packages/audit/index.mjs repeats. Processes take turns at the calls of the file system; a process that
-- crashes takes no more steps. Errors of the file system other than a file that exists are left out.
use haechi.Prelude.{ℕ, ◌+◌, ◌-◌, ◌≤◌, ◌≡◌, Option, none, some, ltb, ◌==◌, if◌then◌else◌}
pub mod Exclusive
pub mod Stolen
mod Tests

abbrev pub stale_lock_ms : ℕ
stale_lock_ms = 30000

abbrev pub acquire_ms : ℕ
acquire_ms = 5000

-- Where a process is; the number is its deadline. It is about to create the file, to look at the file
-- that is there, to remove it, or to see whether its time is up.
pub data Phase : Type 0 where
  idle holding timed_out : Phase
  waiting found stale fresh : ℕ → Phase

-- The lock file is its time of creation.
pub record System : Type 0 where
  pub lock : Option ℕ
  pub phase : ℕ → Phase
  pub now : ℕ

unfoldable pub set_phase : ℕ → Phase → (ℕ → Phase) → ℕ → Phase
set_phase p x phase q = if p == q then x else phase q

-- `isStaleLock`: a file that is gone is not stale.
unfoldable pub after_stat : ℕ → Option ℕ → ℕ → Phase
after_stat now none deadline = fresh deadline
after_stat now (some created) deadline =
    if ltb stale_lock_ms (now - created) then stale deadline else fresh deadline

unfoldable pub after_delay : ℕ → ℕ → Phase
after_delay now deadline = if ltb deadline now then timed_out else waiting deadline

-- One call of one process, or time that passes.
pub data Step (s t : System) : Type 0 where
  begin :
      (p : ℕ)
      → s.phase p ≡ idle
      → t ≡ record s { phase = set_phase p (waiting (s.now + acquire_ms)) s.phase }
      → Step s t
  create :
      (p deadline : ℕ)
      → s.phase p ≡ waiting deadline
      → s.lock ≡ none
      → t ≡ record s { lock = some s.now; phase = set_phase p holding s.phase }
      → Step s t
  exists :
      (p deadline created : ℕ)
      → s.phase p ≡ waiting deadline
      → s.lock ≡ some created
      → t ≡ record s { phase = set_phase p (found deadline) s.phase }
      → Step s t
  look :
      (p deadline : ℕ)
      → s.phase p ≡ found deadline
      → t ≡ record s { phase = set_phase p (after_stat s.now s.lock deadline) s.phase }
      → Step s t
  remove :
      (p deadline : ℕ)
      → s.phase p ≡ stale deadline
      → t ≡ record s { lock = none; phase = set_phase p (waiting deadline) s.phase }
      → Step s t
  retry :
      (p deadline : ℕ)
      → s.phase p ≡ fresh deadline
      → t ≡ record s { phase = set_phase p (after_delay s.now deadline) s.phase }
      → Step s t
  release :
      (p : ℕ)
      → s.phase p ≡ holding
      → t ≡ record s { lock = none; phase = set_phase p idle s.phase }
      → Step s t
  passing : (ms : ℕ) → t ≡ record s { now = s.now + ms } → Step s t

pub data Reach (s : System) : System → Type 0 where
  here : Reach s s
  next : {t u : System} → Reach s t → Step t u → Reach s u

-- The lock file that is there is not stale.
abbrev pub IsYoung : System → Type 0
IsYoung s = (created : ℕ) → s.lock ≡ some created → s.now - created ≤ stale_lock_ms

-- A run that sees no stale lock file.
pub data Runs (s : System) : System → Type 0 where
  at : Runs s s
  then_step : {t u : System} → Runs s t → IsYoung t → Step t u → Runs s u
