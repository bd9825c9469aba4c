-- ===== src/Vault/AuditTokens/Shape.antt =====
-- What `VAULT_TOKEN_SHAPE` matches, told by the parts of the text.
use haechi.Prelude.{
  ℕ, ◌≡◌, refl, sym, ap, ◌∙◌, ◌⊎◌, inl, inr, Bool, true, false, ◌&&◌, ◌||◌, [], ◌∷◌, ◌++◌, arith,
  leb, ◌==◌, ==_iff, length, take, drop, take-append-drop, all, Text, text_eq, text_eq_iff, utf16,
}
use haechi.Vault.{is_hex, is_type_unit, is_hash, is_type_and_hash, is_token_shape}

-- `tok_`, a type of at least one unit, an underscore and at least sixteen hexadecimal digits.
abbrev pub HasTokenShape : Text → Type 0
HasTokenShape t =
    (type : Text) × (hash : Text) × (t ≡ utf16 "tok_" ++ (type ++ (b'_' ∷ hash)))
    × (leb 1 (length type) ≡ true)
    × (all is_type_unit type ≡ true)
    × (leb 16 (length hash) ≡ true)
    × (all is_hex hash ≡ true)

abbrev Parts : Bool → Text → Type 0
Parts begun s =
    (type : Text) × (hash : Text) × (s ≡ type ++ (b'_' ∷ hash))
    × (begun || leb 1 (length type) ≡ true)
    × (all is_type_unit type ≡ true)
    × (leb 16 (length hash) ≡ true)
    × (all is_hex hash ≡ true)

or_cases : (a b : Bool) → a || b ≡ true → (a ≡ true) ⊎ (b ≡ true)
or_cases true b h = inl refl
or_cases false b h = inr h

and_both : (a b : Bool) → a && b ≡ true → (a ≡ true) × (b ≡ true)
and_both true b h = (refl, h)
and_both false b h = cc

hash-Parts :
    (begun : Bool) (c : ℕ) (s : Text)
    → begun && (c == b'_') && is_hash s ≡ true
    → Parts begun (c ∷ s)
hash-Parts begun c s h =
    let (front, hash) = and_both (begun && (c == b'_')) (is_hash s) h in
    let (b, u) = and_both begun (c == b'_') front in
    let (long, hex) = and_both (leb 16 (length s)) (all is_hex s) hash in
    ([], s, ap (λ x. x ∷ s) ((==_iff c b'_').0 u), rw b refl, refl, long, hex)

is_type_and_hash-Parts : (begun : Bool) (s : Text) → is_type_and_hash begun s ≡ true → Parts begun s
unfolding is_type_and_hash
is_type_and_hash-Parts begun [] h = cc
is_type_and_hash-Parts begun (c ∷ s) h = elim (or_cases (begun && (c == b'_') && is_hash s) _ h) [
  | inl here ↦ hash-Parts begun c s here
  | inr later ↦
      let (unit, rest) = and_both (is_type_unit c) (is_type_and_hash true s) later in
      let (type, hash, e, _, units, long, hex) = is_type_and_hash-Parts true s rest in
      (c ∷ type, hash, ap (λ x. c ∷ x) e, ground arith, rw unit units, long, hex)
]

pub is_token_shape-HasTokenShape : (t : Text) → is_token_shape t ≡ true → HasTokenShape t
unfolding is_token_shape
is_token_shape-HasTokenShape t h =
    let (front, back) =
      and_both (text_eq (take 4 t) (utf16 "tok_")) (is_type_and_hash false (drop 4 t)) h in
    let (type, hash, e, one, units, long, hex) = is_type_and_hash-Parts false (drop 4 t) back in
    (
      type,
      hash,
      sym (take-append-drop 4 t)
          ∙ ap (λ x. x ++ drop 4 t) ((text_eq_iff (take 4 t) (utf16 "tok_")).0 front)
          ∙ ap (λ x. utf16 "tok_" ++ x) e,
      one,
      units,
      long,
      hex,
    )
