-- ===== src/Crypto/Spent.antt =====
-- How much of a key's budget is spent, and what a step may do to it.
use haechi.Prelude.{
  ℕ, ◌+◌, ◌≤◌, ◌≡◌, refl, inl, inr, Bool, true, false, ◌&&◌, Bool-cases, Option, none, some, List,
  [], ◌∷◌, map, arith, if◌then◌else◌, or_default, Text, text_eq, text_eq_iff,
}
use haechi.Crypto.{KeyEntry, max_encryptions_per_key, find_entry, retire}
use haechi.Crypto.Budget.{Reservation, Budget, set_usage}

abbrev pub usage_in : Option KeyEntry → ℕ
usage_in none = max_encryptions_per_key
usage_in (some e) = or_default e.usage 0

-- What the file says that has been used; a key that is not there can encrypt no more.
unfoldable pub usage_of : Text → List KeyEntry → ℕ
unfolding find_entry
usage_of kid es = usage_in (find_entry kid es)

pub usage_of-set_same :
    (kid : Text) (u : ℕ) (es : List KeyEntry) (e : KeyEntry)
    → find_entry kid es ≡ some e
    → usage_of kid (set_usage kid u es) ≡ u
unfolding usage_of set_usage
usage_of-set_same kid u [] e h = cc
usage_of-set_same kid u (x ∷ es) e h = elim (Bool-cases (text_eq x.kid kid)) [
  | inl t ↦ rw (t, t) refl
  | inr f ↦ rw (f, f) (usage_of-set_same kid u es e (rw f at h))
]

pub usage_of-set_other :
    (kid other : Text) (u : ℕ) (es : List KeyEntry)
    → text_eq other kid ≡ false
    → usage_of kid (set_usage other u es) ≡ usage_of kid es
unfolding usage_of set_usage
usage_of-set_other kid other u [] d = refl
usage_of-set_other kid other u (x ∷ es) d = elim (Bool-cases (text_eq x.kid other)) [
  | inl t ↦
      let apart : text_eq x.kid kid ≡ false = rw ((text_eq_iff x.kid other).0 t) d in
      rw (t, apart) refl
  | inr f ↦ elim (Bool-cases (text_eq x.kid kid)) [
    | inl t ↦ rw (f, t) refl
    | inr g ↦ rw (f, g) (usage_of-set_other kid other u es d)
  ]
]

pub usage_of-retire :
    (kid : Text) (es : List KeyEntry) → usage_of kid (map retire es) ≡ usage_of kid es
unfolding usage_of retire
usage_of-retire kid [] = refl
usage_of-retire kid (x ∷ es) = elim (Bool-cases (text_eq x.kid kid)) [
  | inl t ↦ rw t refl
  | inr f ↦ rw f (usage_of-retire kid es)
]

-- What has been used at most, by a process's reservation or by the file.
unfoldable pub spent_in : Text → Option Reservation → ℕ → ℕ
unfolding text_eq
spent_in kid none usage = usage
spent_in kid (some r) usage = if text_eq r.kid kid then r.base + r.used else usage

unfoldable pub spent : Text → Budget → ℕ
unfolding spent_in usage_of
spent kid st = spent_in kid st.reservation (usage_of kid st.keys)

-- A window of the key lies within what the file says.
abbrev pub Covers : Text → Option Reservation → ℕ → Type 0
Covers kid none usage = Unit
Covers kid (some r) usage =
    text_eq r.kid kid ≡ true → (r.used ≤ r.granted) × (r.base + r.granted ≤ usage)

pub record Holds (kid : Text) (st : Budget) : Type 0 where
  pub persists : st.persist_disabled ≡ false
  pub covers : Covers kid st.reservation (usage_of kid st.keys)

pub spent-le :
    (kid : Text) (o : Option Reservation) (usage : ℕ)
    → Covers kid o usage
    → spent_in kid o usage ≤ usage
unfolding spent_in
spent-le kid none usage c = omega arith
spent-le kid (some r) usage c = elim (Bool-cases (text_eq r.kid kid)) [
  | inl t ↦ rw t (omega (arith, c t))
  | inr f ↦ rw f (omega arith)
]

-- What a step leaves: no less is spent, and an encryption that goes on is counted within the limit.
pub record Charged (kid : Text) (before : ℕ) (b : Bool) (st : Budget) : Type 0 where
  pub holds : Holds kid st
  pub kept : before ≤ spent kid st
  pub counted : b ≡ true → (before + 1 ≤ spent kid st) × (spent kid st ≤ max_encryptions_per_key)

pub Charged-le :
    (kid : Text) (least before : ℕ) (b : Bool) (st : Budget)
    → least ≤ before
    → Charged kid before b st
    → Charged kid least b st
Charged-le kid least before b st l c = record {
  holds = c.holds;
  kept = omega (arith, c.kept);
  counted = λ e. let d = c.counted e in omega (arith, d);
}

-- A step that answers no.
pub unchanged :
    (kid : Text) (b : Bool) (st : Budget)
    → Holds kid st
    → Charged kid (spent kid st) (b && false) st
unchanged kid b st h = record { holds = h; kept = omega arith; counted = ground arith }
