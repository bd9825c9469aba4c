-- ===== src/Filter/Verhoeff/Tables.antt =====
-- What the two tables of the Verhoeff check satisfy, by evaluating them at every index.
use haechi.Prelude.{
  ℕ, suc, zero, ◌+◌, ◌%◌, ◌<◌, ◌≡◌, refl, Bool, true, not, ◌&&◌, ◌||◌, arith, ltb, ◌==◌, ==_iff,
  ltb→lt,
}
use mathlib.Core.Bool.{and-eq-true_iff}
use haechi.Filter.Verhoeff.{compose, permute}

-- A test on every index below a bound, the lowest last.
passes_to : (ℕ → Bool) → ℕ → Bool
passes_to test zero = true
passes_to test (suc bound) = passes_to test bound && test bound

passes_to_at :
    (test : ℕ → Bool) (bound i : ℕ) → passes_to test bound ≡ true → i < bound → test i ≡ true
unfolding passes_to
passes_to_at test zero i h = ground arith
passes_to_at test (suc bound) i h = ground (arith, passes_to_at test bound i)

-- Over three indices below bounds.
all_triples : ℕ → ℕ → ℕ → (ℕ → ℕ → ℕ → Bool) → Bool
unfolding passes_to
all_triples k m n p = passes_to (λ a. passes_to (λ b. passes_to (λ c. p a b c) n) m) k

all_triples_sound :
    (k m n : ℕ) (p : ℕ → ℕ → ℕ → Bool) (a b c : ℕ)
    → all_triples k m n p ≡ true
    → a < k
    → b < m
    → c < n
    → p a b c ≡ true
unfolding all_triples
all_triples_sound k m n p a b c h ha hb hc =
    passes_to_at _ n c
      (passes_to_at (λ b. passes_to (λ c. p a b c) n) m b
        (passes_to_at (λ a. passes_to (λ b. passes_to (λ c. p a b c) n) m) k a h ha) hb)
      hc

abbrev implies : Bool → Bool → Bool
implies p q = not p || q

associative_table :
    all_triples 10 10 10 (λ a b c. compose (compose a b) c == compose a (compose b c)) ≡ true
unfolding all_triples compose
associative_table = refl

right_table : all_triples 10 10 10 (λ a b c. implies (compose a b == compose a c) (b == c)) ≡ true
unfolding all_triples compose
right_table = refl

left_table : all_triples 10 10 10 (λ a b c. implies (compose b a == compose c a) (b == c)) ≡ true
unfolding all_triples compose
left_table = refl

permute_table : all_triples 8 10 10 (λ i a b. implies (permute i a == permute i b) (a == b)) ≡ true
unfolding all_triples permute
permute_table = refl

swap_table :
    all_triples 8 10 10 (λ i a b.
      implies
        (compose (permute i a) (permute ((i + 1) % 8) b)
          == compose (permute i b) (permute ((i + 1) % 8) a))
        (a == b))
    ≡ true
unfolding all_triples permute compose
swap_table = refl

range_table : all_triples 8 10 10 (λ i a b. ltb (permute i a) 10 && ltb (compose a b) 10) ≡ true
unfolding all_triples permute compose
range_table = refl

pub compose-lt : (a b : ℕ) → a < 10 → b < 10 → compose a b < 10
compose-lt a b ha hb =
    ltb→lt _ _
      ((and-eq-true_iff _ _).0
        (all_triples_sound 8 10 10 _ 0 a b range_table (omega arith) ha hb)).1

pub permute-lt : (i d : ℕ) → d < 10 → permute (i % 8) d < 10
permute-lt i d hd =
    ltb→lt _ _
      ((and-eq-true_iff _ _).0
        (all_triples_sound 8 10 10 _ (i % 8) d 0 range_table (omega arith) hd (omega arith))).0

implied : (m n j k : ℕ) → implies (m == n) (j == k) ≡ true → m ≡ n → j ≡ k
implied m n j k h e = ground arith

pub compose_inj_right : (a b c : ℕ) → a < 10 → b < 10 → c < 10 → compose a b ≡ compose a c → b ≡ c
compose_inj_right a b c ha hb hc =
    implied _ _ b c (all_triples_sound 10 10 10 _ a b c right_table ha hb hc)

pub compose_inj_left : (a b c : ℕ) → a < 10 → b < 10 → c < 10 → compose b a ≡ compose c a → b ≡ c
compose_inj_left a b c ha hb hc =
    implied _ _ b c (all_triples_sound 10 10 10 _ a b c left_table ha hb hc)

pub compose_assoc :
    (a b c : ℕ) → a < 10 → b < 10 → c < 10 → compose (compose a b) c ≡ compose a (compose b c)
compose_assoc a b c ha hb hc =
    (==_iff _ _).0 (all_triples_sound 10 10 10 _ a b c associative_table ha hb hc)

pub permute_inj : (i a b : ℕ) → a < 10 → b < 10 → permute (i % 8) a ≡ permute (i % 8) b → a ≡ b
permute_inj i a b ha hb =
    implied _ _ a b (all_triples_sound 8 10 10 _ (i % 8) a b permute_table (omega arith) ha hb)

next_index : (i : ℕ) → (i % 8 + 1) % 8 ≡ (i + 1) % 8
next_index i = omega arith

pub swap_inj :
    (i a b : ℕ)
    → a < 10
    → b < 10
    → compose (permute (i % 8) a) (permute ((i + 1) % 8) b)
      ≡ compose (permute (i % 8) b) (permute ((i + 1) % 8) a)
    → a ≡ b
swap_inj i a b ha hb e =
    let here = all_triples_sound 8 10 10 _ (i % 8) a b swap_table (omega arith) ha hb in
    let there : implies
          (compose (permute (i % 8) a) (permute ((i + 1) % 8) b)
            == compose (permute (i % 8) b) (permute ((i + 1) % 8) a))
          (a == b)
        ≡ true =
      rw (next_index i) at here in
    implied _ _ a b there e
