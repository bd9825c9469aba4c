-- ===== src/Crypto/Charges.antt =====
-- One encryption's effect on the budget of a key.
use haechi.Prelude.{
  ℕ, ◌+◌, ◌≤◌, ◌<◌, ◌≡◌, refl, sym, ap, ◌∙◌, inl, inr, Bool, true, false, ◌&&◌, Bool-cases, Option,
  Option-cases, none, some, arith, leb, if◌then◌else◌, or_default, Text, text_eq, text_eq_iff,
  subst,
}
use haechi.Crypto.{KeyEntry, limit_reached, missing_key, max_encryptions_per_key, find_entry}
use haechi.Crypto.Budget.{
  Reservation, Budget, set_usage, current_in_file, current_of, read_current, granted_from,
  persisted, reserve_from, reserve_nonce_window, needs_window, account_in, account,
}
use haechi.Crypto.Spent.{
  usage_in, usage_of, usage_of-set_same, usage_of-set_other, spent_in, spent, Covers, Holds,
  spent-le, Charged, Charged-le, unchanged,
}

-- An encryption in a window of the key.
pub account_same :
    (kid : Text) (r : Reservation) (st : Budget)
    → text_eq r.kid kid ≡ true
    → r.used < r.granted
    → r.base + r.granted ≤ usage_of kid st.keys
    → st.persist_disabled ≡ false
    → st.reservation ≡ some r
    → Charged kid (r.base + r.used) (account_in (some r) st).0 (account_in (some r) st).1
unfolding spent spent_in
account_same kid r st same room within persists here =
    elim (Bool-cases (leb max_encryptions_per_key (r.base + r.used))) [
      | inl full ↦ rw full (record {
        holds = record { persists = persists; covers = rw here (λ _. omega arith) };
        kept = rw (here, same) (omega arith);
        counted = λ e. cc;
      })
      | inr go ↦ rw go (record {
        holds = record { persists = persists; covers = λ _. omega arith };
        kept = rw same (omega arith);
        counted = λ _. rw same (ground arith);
      })
    ]

-- One in another key's window.
pub account_other :
    (kid : Text) (r : Reservation) (st : Budget)
    → text_eq r.kid kid ≡ false
    → st.persist_disabled ≡ false
    → st.reservation ≡ some r
    → Charged kid (usage_of kid st.keys) false (account_in (some r) st).1
unfolding spent spent_in
account_other kid r st apart persists here =
    elim (Bool-cases (leb max_encryptions_per_key (r.base + r.used))) [
      | inl full ↦ rw full (record {
        holds = record { persists = persists; covers = rw here (λ e. cc) };
        kept = rw (here, apart) (omega arith);
        counted = λ e. cc;
      })
      | inr go ↦ rw go (record {
        holds = record { persists = persists; covers = λ e. cc };
        kept = rw apart (omega arith);
        counted = λ e. cc;
      })
    ]

pub read_current-file :
    (kid : Text) (o : Option Reservation) (st : Budget)
    → st.persist_disabled ≡ false
    → current_of kid o st ≡ current_in_file kid (find_entry kid st.keys)
unfolding current_of
read_current-file kid none st p = refl
read_current-file kid (some r) st p = rw p refl

abbrev pub window_of : Text → ℕ → Reservation
window_of kid start = record { kid = kid; base = start; granted = granted_from start; used = 0 }

abbrev pub windowed : Text → ℕ → Budget → Budget
unfolding set_usage
windowed kid start st = record st {
  keys = set_usage kid (start + granted_from start) st.keys;
  reservation = some (window_of kid start);
}

pub reserve_some :
    (kid : Text) (e : KeyEntry) (st : Budget)
    → st.persist_disabled ≡ false
    → find_entry kid st.keys ≡ some e
    → leb max_encryptions_per_key (or_default e.usage 0) ≡ false
    → reserve_nonce_window kid true st ≡ (none, windowed kid (or_default e.usage 0) st)
unfolding reserve_nonce_window reserve_from persisted read_current windowed
reserve_some kid e st p f l = rw (read_current-file kid st.reservation st p, f, l, p) refl

pub reserve_full :
    (kid : Text) (e : KeyEntry) (st : Budget)
    → st.persist_disabled ≡ false
    → find_entry kid st.keys ≡ some e
    → leb max_encryptions_per_key (or_default e.usage 0) ≡ true
    → reserve_nonce_window kid true st ≡ (some limit_reached, st)
unfolding reserve_nonce_window reserve_from read_current
reserve_full kid e st p f l = rw (read_current-file kid st.reservation st p, f, l) refl

pub reserve_missing :
    (kid : Text) (st : Budget)
    → st.persist_disabled ≡ false
    → find_entry kid st.keys ≡ none
    → reserve_nonce_window kid true st ≡ (some (missing_key kid), st)
unfolding reserve_nonce_window reserve_from read_current
reserve_missing kid st p f = rw (read_current-file kid st.reservation st p, f) refl

unfoldable pub Answer : Text → Text → Budget → Bool × Budget → Type 0
Answer kid other st a = Charged kid (spent kid st) (text_eq other kid && a.0) a.1

-- An encryption with a new window, of the key or of another one.
pub window-Answer :
    (kid other : Text) (e : KeyEntry) (st : Budget)
    → Holds kid st
    → find_entry other st.keys ≡ some e
    → leb max_encryptions_per_key (or_default e.usage 0) ≡ false
    → Answer kid other st (
        account_in
          (some (window_of other (or_default e.usage 0)))
          (windowed other (or_default e.usage 0) st))
unfolding Answer windowed spent
window-Answer kid other e st h f l =
    let start = or_default e.usage 0 in
    let below = spent-le kid st.reservation (usage_of kid st.keys) h.covers in
    elim (Bool-cases (text_eq other kid)) [
      | inl same ↦
          let keys = set_usage other (start + granted_from start) st.keys in
          let id : kid ≡ other = sym ((text_eq_iff other kid).0 same) in
          let there : usage_of kid st.keys ≡ start =
            ap (λ k. usage_of k st.keys) id ∙ ap usage_in f in
          let left : usage_of kid keys ≡ start + granted_from start =
            ap (λ k. usage_of k keys) id
            ∙ usage_of-set_same other (start + granted_from start) st.keys e f in
          rw same (
            Charged-le kid (spent kid st) (start + 0) _ _ (omega (arith, below, there)) (
              account_same kid (window_of other start) (windowed other start st) same (ground arith)
                (omega (arith, left)) h.persists refl))
      | inr apart ↦
          let left = usage_of-set_other kid other (start + granted_from start) st.keys apart in
          rw apart (
            Charged-le kid (spent kid st) _ _ _ (omega (arith, below, left)) (
              account_other kid (window_of other start) (windowed other start st) apart h.persists
                refl))
    ]

-- An encryption in the window that is there.
pub kept-Answer :
    (kid other : Text) (r : Reservation) (st : Budget)
    → Holds kid st
    → st.reservation ≡ some r
    → needs_window other (some r) ≡ false
    → Answer kid other st (account_in (some r) st)
unfolding Answer spent needs_window
kept-Answer kid other r st h here n =
    let room : r.used < r.granted = ground arith in
    let mine : text_eq r.kid other ≡ true = ground arith in
    let id : r.kid ≡ other = (text_eq_iff r.kid other).0 mine in
    let covers : Covers kid (some r) (usage_of kid st.keys) = (rw here at h.covers) in
    elim (Bool-cases (text_eq r.kid kid)) [
      | inl same ↦
          let asked : text_eq other kid ≡ true = ap (λ k. text_eq k kid) (sym id) ∙ same in
          let now : spent kid st ≡ r.base + r.used =
            ap (λ o. spent_in kid o (usage_of kid st.keys)) here ∙ rw same refl in
          rw asked (
            Charged-le kid (spent kid st) (r.base + r.used) _ _ (omega (arith, now))
              (account_same kid r st same room ((covers same).1) h.persists here))
      | inr apart ↦
          let asked : text_eq other kid ≡ false = ap (λ k. text_eq k kid) (sym id) ∙ apart in
          let now : spent kid st ≡ usage_of kid st.keys =
            ap (λ o. spent_in kid o (usage_of kid st.keys)) here ∙ rw apart refl in
          rw asked (
            Charged-le kid (spent kid st) (usage_of kid st.keys) _ _ (omega (arith, now))
              (account_other kid r st apart h.persists here))
    ]

pub reserve-Answer :
    (kid other : Text) (st : Budget)
    → Holds kid st
    → Answer kid other st (account (reserve_nonce_window other true st))
unfolding account Answer windowed
reserve-Answer kid other st h = elim (Option-cases (find_entry other st.keys)) [
  | inl f ↦ rw (reserve_missing other st h.persists f) (unchanged kid (text_eq other kid) st h)
  | inr e ↦ elim (Bool-cases (leb max_encryptions_per_key (or_default e.0.usage 0))) [
    | inl full ↦
        rw (reserve_full other e.0 st h.persists e.1 full) (unchanged kid (text_eq other kid) st h)
    | inr go ↦
        rw (reserve_some other e.0 st h.persists e.1 go) (window-Answer kid other e.0 st h e.1 go)
  ]
]

pub consume-Answer :
    (kid other : Text) (o : Option Reservation) (st : Budget)
    → Holds kid st
    → st.reservation ≡ o
    → Answer kid other st
        (account (if needs_window other o then reserve_nonce_window other true st else (none, st)))
unfolding account needs_window
consume-Answer kid other none st h here = reserve-Answer kid other st h
consume-Answer kid other (some r) st h here = elim (Bool-cases (needs_window other (some r))) [
  | inl n ↦ rw n (reserve-Answer kid other st h)
  | inr n ↦ rw n (
      subst (λ o. Answer kid other st (account_in o st)) (sym here)
        (kept-Answer kid other r st h here n))
]
