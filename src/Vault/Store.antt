-- ===== src/Vault/Store.antt =====
-- packages/token-vault/index.mjs: a token's record, and the deletion of expired records that every
-- mutation begins with. Dates are milliseconds.
use haechi.Prelude.{
  ℕ, ◌+◌, ◌*◌, ◌≡◌, refl, sym, ap, ◌∙◌, inl, inr, Bool, false, Bool-cases, Option, none, some, [],
  ◌∷◌, arith, ltb, if◌then◌else◌, Text, text_eq, text_eq_iff, text_eq_swap, Fields, TextMap, find,
  put, erase, find-put, find-erase,
}

-- What a record's envelope is bound to.
pub record Aad : Type 0 where
  pub token : Text
  pub type : Text
  pub context : Fields

pub record TokenRecord (Envelope : Type 0) : Type 0 where
  pub type : Text
  pub created_at : ℕ
  pub expires_at : Option ℕ
  pub metadata : Fields
  pub envelope : Envelope
  pub aad : Aad

-- `addDays`
abbrev pub add_days : ℕ → ℕ → ℕ
add_days date days = date + days * 86400000

abbrev pub is_past : ℕ → Option ℕ → Bool
is_past now none = false
is_past now (some date) = ltb date now

module _ {Envelope : Type 0} where
  abbrev pub is_expired : ℕ → TokenRecord Envelope → Bool
  is_expired now r = is_past now r.expires_at

  -- `pruneExpiredView`: the keys are distinct, so an entry's deletion is that of its key.
  unfoldable pub pruned : ℕ → TextMap (TokenRecord Envelope) → TextMap (TokenRecord Envelope)
  pruned now [] = []
  pruned now ((k, r) ∷ m) =
      let rest = pruned now m in if is_expired now r then rest else (k, r) ∷ rest

  -- Its count.
  unfoldable pub purged : ℕ → TextMap (TokenRecord Envelope) → ℕ
  purged now [] = 0
  purged now ((k, r) ∷ m) = let rest = purged now m in if is_expired now r then rest + 1 else rest

  -- The keys of a map are distinct.
  abbrev pub HasKeys : TextMap (TokenRecord Envelope) → Type 0
  HasKeys [] = Unit
  HasKeys ((k, r) ∷ m) = (find k m ≡ none) × HasKeys m

  abbrev pub unexpired : ℕ → Option (TokenRecord Envelope) → Option (TokenRecord Envelope)
  unexpired now none = none
  unexpired now (some r) = if is_expired now r then none else some r

  pub find-pruned-none :
      (now : ℕ) (k : Text) (m : TextMap (TokenRecord Envelope))
      → find k m ≡ none
      → find k (pruned now m) ≡ none
  unfolding find pruned
  find-pruned-none now k [] h = refl
  find-pruned-none now k ((j, r) ∷ m) h = ground (arith, find-pruned-none now k m)

  -- A sweep takes away the expired records, and no other.
  pub find-pruned :
      (now : ℕ) (k : Text) (m : TextMap (TokenRecord Envelope))
      → HasKeys m
      → find k (pruned now m) ≡ unexpired now (find k m)
  unfolding find pruned
  find-pruned now k [] d = refl
  find-pruned now k ((j, r) ∷ m) d = elim (Bool-cases (text_eq j k)) [
    | inl e ↦ elim (Bool-cases (is_expired now r)) [
      | inl x ↦
          let gone : find k m ≡ none = ap (λ i. find i m) (sym ((text_eq_iff j k).0 e)) ∙ d.0 in
          rw (x, e) (find-pruned-none now k m gone ∙ (rw x))
      | inr x ↦ rw (x, e, x)
    ]
    | inr e ↦ elim (Bool-cases (is_expired now r)) [
      | inl x ↦ rw (x, e) (find-pruned now k m d.1)
      | inr x ↦ rw (x, e) (find-pruned now k m d.1)
    ]
  ]

  pub pruned-HasKeys :
      (now : ℕ) (m : TextMap (TokenRecord Envelope)) → HasKeys m → HasKeys (pruned now m)
  unfolding pruned
  pruned-HasKeys now [] d = tt
  pruned-HasKeys now ((k, r) ∷ m) d = elim (Bool-cases (is_expired now r)) [
    | inl x ↦ rw x (pruned-HasKeys now m d.1)
    | inr x ↦ rw x (find-pruned-none now k m d.0, pruned-HasKeys now m d.1)
  ]

  pub put-HasKeys :
      (k : Text) (r : TokenRecord Envelope) (m : TextMap (TokenRecord Envelope))
      → HasKeys m
      → HasKeys (put k r m)
  unfolding put find
  put-HasKeys k r [] d = (refl, tt)
  put-HasKeys k r ((j, s) ∷ m) d = elim (Bool-cases (text_eq j k)) [
    | inl e ↦ rw e d
    | inr e ↦ rw e (find-put k j r m ∙ (rw (text_eq_swap j k e) d.0), put-HasKeys k r m d.1)
  ]

  pub erase-HasKeys :
      (k : Text) (m : TextMap (TokenRecord Envelope)) → HasKeys m → HasKeys (erase k m)
  unfolding erase
  erase-HasKeys k [] d = tt
  erase-HasKeys k ((j, s) ∷ m) d = elim (Bool-cases (text_eq j k)) [
    | inl e ↦ rw e (erase-HasKeys k m d.1)
    | inr e ↦ rw e (find-erase k j m ∙ (rw (text_eq_swap j k e) d.0), erase-HasKeys k m d.1)
  ]
