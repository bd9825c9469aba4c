-- ===== src/Crypto/Limit.antt =====
-- The limit of encryptions under a key, over every process that uses its file.
use haechi.Prelude.{
  ◌-◌, ◌≤◌, ◌≡◌, refl, sym, ap, inl, inr, true, false, Bool-cases, List, [], ◌∷◌, arith, All, Text,
  text_eq, subst,
}
use haechi.Crypto.{KeyEntry, max_encryptions_per_key, rotated_keys}
use haechi.Crypto.Budget.{
  Budget, started, consume_nonce_budget, Event, encrypting, restarting, rotating, step, counts,
  encryptions,
}
use haechi.Crypto.Spent.{
  usage_of, usage_of-retire, spent_in, spent, Covers, Holds, spent-le, Charged,
}
use haechi.Crypto.Charges.{Answer, consume-Answer}

-- The writes to the key file succeed, and a rotation gives its key a new identifier.
abbrev pub Persists : Text → Event → Type 0
Persists kid (encrypting other writable) = writable ≡ true
Persists kid restarting = Unit
Persists kid (rotating new) = text_eq new.kid kid ≡ false

rotated_usage :
    (kid : Text) (new : KeyEntry) (es : List KeyEntry)
    → text_eq new.kid kid ≡ false
    → usage_of kid (rotated_keys new es) ≡ usage_of kid es
unfolding rotated_keys usage_of
rotated_usage kid new es d = rw d (usage_of-retire kid es)

step-Charged :
    (kid : Text) (e : Event) (st : Budget)
    → Persists kid e
    → Holds kid st
    → Charged kid (spent kid st) (counts kid e st) (step e st)
unfolding step counts consume_nonce_budget Answer spent
step-Charged kid (encrypting other writable) st p h =
    rw p (consume-Answer kid other st.reservation st h refl)
step-Charged kid restarting st p h = record {
  holds = record { persists = refl; covers = tt };
  kept = spent-le kid st.reservation (usage_of kid st.keys) h.covers;
  counted = λ e. cc;
}
step-Charged kid (rotating new) st p h =
    let same = rotated_usage kid new st.keys p in
    record {
      holds = record {
        persists = h.persists;
        covers = subst (Covers kid st.reservation) (sym same) h.covers;
      };
      kept = omega (arith, ap (spent_in kid st.reservation) same);
      counted = λ e. cc;
    }

encryptions-spent :
    (kid : Text) (es : List Event) (st : Budget)
    → All (Persists kid) es
    → Holds kid st
    → encryptions kid es st ≤ max_encryptions_per_key - spent kid st
unfolding encryptions
encryptions-spent kid [] st p h = omega arith
encryptions-spent kid (e ∷ es) st p h =
    let c = step-Charged kid e st p.0 h in
    let ih = encryptions-spent kid es (step e st) p.1 c.holds in
    elim (Bool-cases (counts kid e st)) [
      | inl t ↦ rw t (let d = c.counted t in omega (arith, ih, d))
      | inr f ↦ rw f (omega (arith, ih, c.kept))
    ]

-- The budget is one of the key, not of the process. Whatever encryptions, restarts of the process and
-- rotations follow, under any keys and in any order, if the writes to the key file succeed, the encryptions
-- come one after the other and no rotation reuses the identifier, no more encryptions go on under a key than
-- the limit of 2^32 leaves over what its file says has been used.
pub encryptions-limit :
    (kid : Text) (events : List Event) (keys : List KeyEntry)
    → All (Persists kid) events
    → encryptions kid events (started keys) ≤ max_encryptions_per_key - usage_of kid keys
unfolding spent
encryptions-limit kid events keys p =
    encryptions-spent kid events (started keys) p (record { persists = refl; covers = tt })
