-- ===== src/Core/StreamProtector/Commits.antt =====
-- What `push` commits of its buffer.
use haechi.Prelude.{
  ℕ, String, zero, suc, ◌-◌, ◌≤◌, ◌≡◌, ◌⊎◌, refl, sym, ap, ◌∙◌, inl, inr, Bool, true, false,
  Bool-cases, not, ◌&&◌, Option, none, some, List, [], ◌∷◌, ◌++◌, ltb, min, arith, if◌then◌else◌,
  any, filter, length, drop, take, In, Text,
}
use haechi.Core.{Detection}
use haechi.Core.Transform.{Item, Provider, World, transform_string}
use haechi.Core.Events.{Context}
use haechi.Core.Protect.{Config, is_block}
use haechi.Core.StreamProtector.{
  StreamState, least_start, reaches_past, commit_length, detect_text, decided, is_enforcing,
  tallied, text_answer, world, transform_items, transform_segment, push_committed, push,
}

filter-In :
    (test : Detection → Bool) (d : Detection) (ds : List Detection)
    → In d ds
    → test d ≡ true
    → In d (filter test ds)
filter-In test d [] m h = elim m [ ]
filter-In test d (e ∷ ds) (inl s) h =
    let first : test e ≡ true = ap test (sym s) ∙ h in rw first (inl s)
filter-In test d (e ∷ ds) (inr m) h = elim (Bool-cases (test e)) [
  | inl t ↦ rw t (inr (filter-In test d ds m h))
  | inr t ↦ rw t (filter-In test d ds m h)
]

In-filter :
    (test : Detection → Bool) (d : Detection) (ds : List Detection)
    → In d (filter test ds)
    → In d ds × (test d ≡ true)
In-filter test d [] m = elim m [ ]
In-filter test d (e ∷ ds) m = step (λ n. In-filter test d ds n) (test e) refl m
  where
    both : In d ds × (test d ≡ true) → ((d ≡ e) ⊎ In d ds) × (test d ≡ true)
    both h = (inr h.0, h.1)

    step :
        (In d (filter test ds) → In d ds × (test d ≡ true))
        → (b : Bool) → test e ≡ b
        → In d (if b then e ∷ filter test ds else filter test ds)
        → ((d ≡ e) ⊎ In d ds) × (test d ≡ true)
    step rest true t (inl s) = (inl s, ap test s ∙ t)
    step rest true t (inr n) = both (rest n)
    step rest false t n = both (rest n)

least_start-bound : (bound : ℕ) (ds : List Detection) → least_start bound ds ≤ bound
least_start-bound bound [] = omega arith
least_start-bound bound (d ∷ ds) = omega (arith, least_start-bound (min bound d.start) ds)

least_start-In :
    (bound : ℕ) (ds : List Detection) (d : Detection) → In d ds → least_start bound ds ≤ d.start
least_start-In bound [] d m = elim m [ ]
least_start-In bound (e ∷ ds) d (inl s) =
    let same : d.start ≡ e.start = ap (λ x. x.start) s in
    omega (arith, least_start-bound (min bound e.start) ds)
least_start-In bound (e ∷ ds) d (inr m) = least_start-In (min bound e.start) ds d m

-- It is the bound, or a detection starts there.
least_start_cases :
    (bound : ℕ) (ds : List Detection)
    → (least_start bound ds ≡ bound)
      ⊎ ((d : Detection) × In d ds × (d.start ≡ least_start bound ds))
least_start_cases bound [] = inl refl
least_start_cases bound (e ∷ ds) = elim (least_start_cases (min bound e.start) ds) [
  | inr found ↦ inr (found.0, inr found.1, found.2)
  | inl h ↦ elim (Bool-cases (ltb e.start bound)) [
    | inl l ↦ inr (e, inl refl, ground (arith, h))
    | inr l ↦ inl (h ∙ (ground arith))
  ]
]

-- Detections that share no unit, as the filter engine gives them.
abbrev pub AreDisjoint : List Detection → Type 0
AreDisjoint ds =
    (d e : Detection) → In d ds → In e ds → (d ≡ e) ⊎ ((d.end ≤ e.start) ⊎ (e.end ≤ d.start))

abbrev pub AreForward : List Detection → Type 0
AreForward ds = (d : Detection) → In d ds → d.start ≤ d.end

-- No detection has units on both sides.
abbrev pub IsUncut : ℕ → Detection → Type 0
IsUncut commit d = (d.end ≤ commit) ⊎ (commit ≤ d.start)

crosses :
    (bound : ℕ) (d e : Detection)
    → ltb bound d.end ≡ false
    → ltb bound e.end ≡ true
    → d.end ≡ e.end
    → ⊥
crosses bound d e l w s = ground arith

behind :
    (bound : ℕ) (d e : Detection)
    → ltb bound d.end ≡ false
    → ltb bound e.end ≡ true
    → e.end ≤ d.start
    → d.start ≤ d.end
    → ⊥
behind bound d e l w a f = ground arith

commit_length-IsUncut :
    (max_match : ℕ) (pending : Text) (ds : List Detection) (d : Detection)
    → AreDisjoint ds
    → AreForward ds
    → In d ds
    → IsUncut (commit_length max_match pending ds) d
unfolding commit_length
commit_length-IsUncut max_match pending ds d apart forward m =
    let bound = length pending - max_match in
    let past = filter (reaches_past bound) ds in
    elim (Bool-cases (ltb bound d.end)) [
      | inl l ↦ inr (least_start-In bound past d (filter-In (reaches_past bound) d ds m l))
      | inr l ↦ elim (least_start_cases bound past) [
        | inl b ↦ inl (ground arith)
        | inr found ↦
            let e = found.0 in
            let was = In-filter (reaches_past bound) e ds found.1 in
            elim (apart d e m was.0) [
              | inl same ↦ absurd (crosses bound d e l was.1 (ap (λ x. x.end) same))
              | inr (inl before) ↦ inl (omega (arith, found.2))
              | inr (inr after) ↦ absurd (behind bound d e l was.1 after (forward d m))
            ]
      ]
    ]

commit_length-bound :
    (max_match : ℕ) (pending : Text) (ds : List Detection)
    → commit_length max_match pending ds ≤ length pending - max_match
unfolding commit_length
commit_length-bound max_match pending ds =
    least_start-bound (length pending - max_match)
      (filter (reaches_past (length pending - max_match)) ds)

module _ (provider : Provider) (config : Config)
    (engine : Option (Detection → Context → String → String)) (context : Context)
    (max_match : ℕ) where
  -- An answer that leaves a text in the buffer.
  abbrev pub Leaves : Text → Option Text × StreamState provider.State → Type 0
  Leaves pending out = out.1.pending ≡ pending

  either :
      (a b : Bool) (pending : Text) (x y z : Option Text × StreamState provider.State)
      → Leaves pending x
      → Leaves pending y
      → Leaves pending z
      → Leaves pending (if a then x else if b then y else z)
  either true b pending x y z h k l = h
  either false true pending x y z h k l = k
  either false false pending x y z h k l = l

  text_answer-Leaves :
      (o : Option (Text × World provider)) (st : StreamState provider.State)
      → Leaves st.pending (text_answer provider config engine context max_match o st)
  text_answer-Leaves none st = refl
  text_answer-Leaves (some r) st = refl

  transform_items-Leaves :
      (text : Text) (items : List Item) (st : StreamState provider.State)
      → Leaves st.pending (transform_items provider config engine context max_match text items st)
  unfolding transform_items
  transform_items-Leaves text [] st = refl
  transform_items-Leaves text (i ∷ is) st =
      let told = tallied provider config engine context max_match (i ∷ is) st in
      let answer =
        text_answer provider config engine context max_match
          (transform_string provider text (i ∷ is)
            (world provider config engine context max_match st))
          told in
      either (is_enforcing provider config engine context max_match && any is_block (i ∷ is))
        (not (is_enforcing provider config engine context max_match)) st.pending (none, told)
        (some text, told) answer refl refl
        (text_answer-Leaves
          (transform_string provider text (i ∷ is)
            (world provider config engine context max_match st))
          told)

  pub push_committed-Leaves :
      (n : ℕ) (pending : Text) (st : StreamState provider.State)
      → Leaves
          (drop n pending)
          (push_committed provider config engine context max_match n pending st)
  unfolding push_committed transform_segment
  push_committed-Leaves zero pending st = refl
  push_committed-Leaves (suc n) pending st =
      transform_items-Leaves (take (suc n) pending)
        (decided provider config engine context max_match
          (detect_text provider config engine context max_match (take (suc n) pending)))
        (record st { pending = drop (suc n) pending })

  -- A push commits the front of its buffer and keeps the rest, whatever becomes of what it commits. Where the
  -- detections of the buffer share no unit, none of them has units on both sides of the cut, and the last
  -- units of the buffer, as many as the longest match has, are always kept.
  pub push-IsUncut :
      (text : Text) (st : StreamState provider.State)
      → AreDisjoint (detect_text provider config engine context max_match (st.pending ++ text))
      → AreForward (detect_text provider config engine context max_match (st.pending ++ text))
      → (commit : ℕ) × (commit ≤ length (st.pending ++ text) - max_match)
        × ((push provider config engine context max_match text st).1.pending
            ≡ drop commit (st.pending ++ text))
        × ((d : Detection)
            → In d (detect_text provider config engine context max_match (st.pending ++ text))
            → IsUncut commit d)
  unfolding push
  push-IsUncut text st apart forward =
      let buffer = st.pending ++ text in
      let ds = detect_text provider config engine context max_match buffer in
      (
        commit_length max_match buffer ds,
        commit_length-bound max_match buffer ds,
        push_committed-Leaves (commit_length max_match buffer ds) buffer st,
        λ d m. commit_length-IsUncut max_match buffer ds d apart forward m,
      )
