-- ===== src/Vault/Lock/Exclusive.antt =====
-- The lock keeps processes apart while no file is stale.
use haechi.Prelude.{
  ℕ, ◌-◌, ◌≤◌, ◌≡◌, refl, sym, ap, ◌∙◌, subst, inl, inr, Bool, true, false, Bool-cases, Option,
  none, some, ◌==◌, ==_iff, arith, if◌then◌else◌,
}
use haechi.Vault.Lock.{
  stale_lock_ms, Phase, idle, holding, timed_out, waiting, found, stale, fresh, System, set_phase,
  after_stat, after_delay, Step, begin, create, exists, look, remove, retry, release, passing,
  IsYoung, Runs, at, then_step,
}

abbrev holds : Phase → Bool
holds holding = true
holds idle = false
holds timed_out = false
holds (waiting d) = false
holds (found d) = false
holds (stale d) = false
holds (fresh d) = false

abbrev steals : Phase → Bool
steals (stale d) = true
steals idle = false
steals holding = false
steals timed_out = false
steals (waiting d) = false
steals (found d) = false
steals (fresh d) = false

record Inv (s : System) : Type 0 where
  one : (p q : ℕ) → holds (s.phase p) ≡ true → holds (s.phase q) ≡ true → p ≡ q
  locked : (p : ℕ) → holds (s.phase p) ≡ true → (created : ℕ) × (s.lock ≡ some created)
  none_steals : (p : ℕ) → steals (s.phase p) ≡ false

set_phase-holds :
    (p q : ℕ) (x : Phase) (phase : ℕ → Phase)
    → holds x ≡ false
    → holds (set_phase p x phase q) ≡ true
    → holds (phase q) ≡ true
unfolding set_phase
set_phase-holds p q x phase f h = elim (Bool-cases (p == q)) [
  | inl e ↦ let bad : false ≡ true = sym f ∙ (rw e at h) in cc
  | inr e ↦ (rw e at h)
]

set_phase-steals :
    (p q : ℕ) (x : Phase) (phase : ℕ → Phase)
    → steals x ≡ false
    → steals (phase q) ≡ false
    → steals (set_phase p x phase q) ≡ false
unfolding set_phase
set_phase-steals p q x phase f h = elim (Bool-cases (p == q)) [ inl e ↦ rw e f | inr e ↦ rw e h ]

-- A process goes on without the lock.
walks :
    (s : System) (p : ℕ) (x : Phase)
    → Inv s
    → holds x ≡ false
    → steals x ≡ false
    → Inv (record s { phase = set_phase p x s.phase })
walks s p x v h f = record {
  one = λ a b ha hb.
      v.one a b (set_phase-holds p a x s.phase h ha) (set_phase-holds p b x s.phase h hb);
  locked = λ a ha. v.locked a (set_phase-holds p a x s.phase h ha);
  none_steals = λ a. set_phase-steals p a x s.phase f (v.none_steals a);
}

after_stat-holds : (now : ℕ) (o : Option ℕ) (d : ℕ) → holds (after_stat now o d) ≡ false
unfolding after_stat
after_stat-holds now none d = refl
after_stat-holds now (some created) d = ground arith

after_stat-steals :
    (now : ℕ) (o : Option ℕ) (d : ℕ)
    → ((created : ℕ) → o ≡ some created → now - created ≤ stale_lock_ms)
    → steals (after_stat now o d) ≡ false
unfolding after_stat
after_stat-steals now none d y = refl
after_stat-steals now (some created) d y = ground (arith, y created refl)

after_delay-walks :
    (now d : ℕ) → (holds (after_delay now d) ≡ false) × (steals (after_delay now d) ≡ false)
unfolding after_delay
after_delay-walks now d = ground arith

-- Nobody holds the lock where there is no file, so that the process that creates it is the only one.
creates :
    (s : System) (p : ℕ)
    → s.lock ≡ none
    → Inv s
    → Inv (record s { lock = some s.now; phase = set_phase p holding s.phase })
unfolding set_phase
creates s p l v = record {
  one = λ a b ha hb. sym (mine a ha) ∙ mine b hb;
  locked = λ a ha. (s.now, refl);
  none_steals = λ a. set_phase-steals p a holding s.phase refl (v.none_steals a);
}
  where
    mine : (a : ℕ) → holds (if p == a then holding else s.phase a) ≡ true → p ≡ a
    mine a h = elim (Bool-cases (p == a)) [
      | inl e ↦ (==_iff p a).0 e
      | inr e ↦
          let there = v.locked a (rw e at h) in
          let bad : ◌≡◌ {A = Option ℕ} none (some there.0) = sym l ∙ there.1 in cc
    ]

-- The only holder has left.
releases :
    (s : System) (p : ℕ)
    → holds (s.phase p) ≡ true
    → Inv s
    → Inv (record s { lock = none; phase = set_phase p idle s.phase })
unfolding set_phase
releases s p here v = record {
  one = λ a b ha hb. absurd (gone a ha);
  locked = λ a ha. absurd (gone a ha);
  none_steals = λ a. set_phase-steals p a idle s.phase refl (v.none_steals a);
}
  where
    gone : (a : ℕ) → holds (if p == a then idle else s.phase a) ≡ true → ⊥
    gone a h = elim (Bool-cases (p == a)) [
      | inl e ↦ let bad : false ≡ true = (rw e at h) in cc
      | inr e ↦
          let same = (==_iff p a).1 (v.one p a here (rw e at h)) in
          let bad : false ≡ true = sym e ∙ same in cc
    ]

Step-Inv : (s t : System) → Step s t → IsYoung s → Inv s → Inv t
Step-Inv s t (begin p e c) y v = subst Inv (sym c) (walks s p _ v refl refl)
Step-Inv s t (create p d e l c) y v = subst Inv (sym c) (creates s p l v)
Step-Inv s t (exists p d m e l c) y v = subst Inv (sym c) (walks s p _ v refl refl)
Step-Inv s t (look p d e c) y v =
    subst Inv (sym c)
      (walks s p _ v (after_stat-holds s.now s.lock d) (after_stat-steals s.now s.lock d y))
Step-Inv s t (remove p d e c) y v =
    let bad : true ≡ false = sym (ap steals e) ∙ v.none_steals p in absurd (clash bad)
  where
    clash : true ≡ false → ⊥
    clash e = cc
Step-Inv s t (retry p d e c) y v =
    subst Inv (sym c) (walks s p _ v (after_delay-walks s.now d).0 (after_delay-walks s.now d).1)
Step-Inv s t (release p e c) y v = subst Inv (sym c) (releases s p (ap holds e) v)
Step-Inv s t (passing ms c) y v =
    subst Inv (sym c) (record { one = v.one; locked = v.locked; none_steals = v.none_steals })

Runs-Inv : {s t : System} → Runs s t → Inv s → Inv t
Runs-Inv at v = v
Runs-Inv (then_step {t} {u} r y x) v = Step-Inv t u x y (Runs-Inv r v)

-- The lock is exclusive while every file that is there is at most thirty seconds old when a process takes a
-- step: in whatever order the processes, of any number, take their steps from a state without a file and
-- with every process idle, no two of them hold the lock at once.
pub holding-exclusive :
    (s t : System) (p q : ℕ)
    → s.lock ≡ none
    → ((r : ℕ) → s.phase r ≡ idle)
    → Runs s t
    → t.phase p ≡ holding
    → t.phase q ≡ holding
    → p ≡ q
holding-exclusive s t p q l i r hp hq =
    (Runs-Inv r (record {
      one = λ a b ha hb. absurd (nobody a ha);
      locked = λ a ha. absurd (nobody a ha);
      none_steals = λ a. ap steals (i a);
    })).one
      p q (ap holds hp) (ap holds hq)
  where
    nobody : (a : ℕ) → holds (s.phase a) ≡ true → ⊥
    nobody a h = let bad : false ≡ true = sym (ap holds (i a)) ∙ h in cc
