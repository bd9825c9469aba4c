-- ===== src/Vault/Lock/Tests.antt =====
-- Two processes at one lock.
use haechi.Prelude.{ℕ, ◌≡◌, refl, none, some, arith}
use haechi.Vault.Lock.{
  idle, holding, waiting, System, set_phase, begin, create, Reach, Runs, at, then_step,
}
use haechi.Vault.Lock.Exclusive.{holding-exclusive}
use haechi.Vault.Lock.Stolen.{holding-both}

abbrev resting : System
resting = record { lock = none; phase = λ p. idle; now = 7 }

abbrev asked : System
asked = record resting { phase = set_phase 1 (waiting 5007) resting.phase }

abbrev taken : System
taken = record asked { lock = some 7; phase = set_phase 1 holding asked.phase }

run : Runs resting taken
unfolding set_phase
run =
    then_step (then_step at (λ c e. cc) (begin 1 refl refl)) (λ c e. cc)
      (create 1 5007 refl refl refl)

held : taken.phase 1 ≡ holding
unfolding set_phase
held = refl

holding-exclusive_example : ◌≡◌ {A = ℕ} 1 1
holding-exclusive_example = holding-exclusive resting taken 1 1 refl (λ r. refl) run held held

-- A crashed process has left its file a minute ago.
abbrev crashed : System
crashed = record { lock = some 7; phase = λ p. waiting 65000; now = 60007 }

holding-both_example :
    (t : System) × Reach crashed t × (t.phase 1 ≡ holding) × (t.phase 2 ≡ holding)
holding-both_example = holding-both crashed 1 2 65000 65000 7 refl refl refl refl (omega arith)
