-- ===== src/Crypto/Overlap.antt =====
-- Two encryptions of one process that overlap: both find no window that is left, and the second reads the key file
-- before the first has written it.
use haechi.Prelude.{
  ℕ, ◌≡◌, refl, Bool, true, false, ◌||◌, ◌+◌, inl, inr, ap, Bool-cases, List, [], ◌∷◌, some, Text,
  text_eq, leb, ◌<◌, arith, or_default, Result,
}
use haechi.Crypto.{KeyEntry, CryptoError, max_encryptions_per_key, nonce_warn_threshold, find_entry}
use haechi.Crypto.Charges.{read_current-file}
use haechi.Crypto.Budget.{
  Budget, Current, read_current, granted_from, persisted, reserve_from, reserve_nonce_window,
  needs_window, account, consume_nonce_budget, set_usage,
}

-- The answers of both and the budget after them: read, read, write and go on, write and go on.
abbrev pub finish : Text → Bool → Result CryptoError Current → Bool × Budget → Bool × Bool × Budget
unfolding account reserve_from
finish kid writable second (first, st) = (
  first,
  (account (reserve_from kid writable second st)).0,
  (account (reserve_from kid writable second st)).1,
)

unfoldable pub overlap : Text → Bool → Budget → Bool × Bool × Budget
unfolding finish read_current
overlap kid writable st =
    finish kid writable (read_current kid st)
      (account (reserve_from kid writable (read_current kid st) st))

set_usage_twice :
    (kid : Text) (u : ℕ) (es : List KeyEntry)
    → set_usage kid u (set_usage kid u es) ≡ set_usage kid u es
unfolding set_usage
set_usage_twice kid u [] = refl
set_usage_twice kid u (e ∷ es) = elim (Bool-cases (text_eq e.kid kid)) [
  | inl t ↦ rw (t, t) refl
  | inr f ↦ rw (f, f) (ap (λ x. e ∷ x) (set_usage_twice kid u es))
]

or_twice : (a b : Bool) → (a || b) || b ≡ (a || b)
or_twice a b = ground arith

-- Of two encryptions that overlap like this when the process has no window of the key, or has used its
-- window up, while its writes succeed and the file has the key under its limit, the second takes the
-- same window once more: both go on, and what is left is the budget that a single encryption leaves, so
-- that one of them is never counted.
pub overlap-consume :
    (kid : Text) (e : KeyEntry) (st : Budget)
    → needs_window kid st.reservation ≡ true
    → st.persist_disabled ≡ false
    → find_entry kid st.keys ≡ some e
    → or_default e.usage 0 < max_encryptions_per_key
    → overlap kid true st ≡ (true, true, (consume_nonce_budget kid true st).1)
unfolding overlap finish consume_nonce_budget reserve_nonce_window reserve_from read_current account
    persisted
overlap-consume kid e st n p f l =
    let under : leb max_encryptions_per_key (or_default e.usage 0) ≡ false = ground arith in
    let next : leb max_encryptions_per_key (or_default e.usage 0 + 0) ≡ false = ground arith in
    rw
      (
        n,
        read_current-file kid st.reservation st p,
        p,
        f,
        under,
        next,
        set_usage_twice kid (or_default e.usage 0 + granted_from (or_default e.usage 0)) st.keys,
      )
      (rw (or_twice st.nonce_warned (leb nonce_warn_threshold (or_default e.usage 0 + 0))) refl)
