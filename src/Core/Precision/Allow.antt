-- ===== src/Core/Precision/Allow.antt =====
-- What the compiled allowlist matches.
use haechi.Prelude.{
  ◌≡◌, refl, ap, ◌∙◌, Bool, false, ◌&&◌, ◌||◌, Option, none, some, List, [], ◌∷◌, ◌++◌, arith, any,
  text_eq, or_default,
}
use haechi.Core.{Detection}
use haechi.Core.Precision.{
  AllowEntry, bare, object, Pair, Allowlist, empty_allowlist, add_entry, add_entries,
  compile_allowlist, is_allowlisted,
}

-- What one entry of the configuration asks of a detection: every part that it states.
abbrev pub entry_matches : Detection → AllowEntry → Bool
entry_matches d (bare v) = text_eq d.value v
entry_matches d (object (some v) (some p)) = text_eq d.value v && text_eq d.path_text p
entry_matches d (object (some v) none) = text_eq d.value v
entry_matches d (object none (some p)) = text_eq d.path_text p
entry_matches d (object none none) = false

any-append {ℓ} :
    {A : Type ℓ} (p : A → Bool) (xs ys : List A) → any p (xs ++ ys) ≡ (any p xs || any p ys)
any-append p [] ys = refl
any-append p (x ∷ xs) ys = ground (arith, any-append p xs ys)

add_entry-matches :
    (d : Detection) (e : AllowEntry) (a : Allowlist)
    → is_allowlisted d (some (add_entry e a)) ≡ (is_allowlisted d (some a) || entry_matches d e)
unfolding is_allowlisted add_entry
add_entry-matches d (bare v) a = ground arith
add_entry-matches d (object (some v) (some p)) a =
    rw
      (any-append (λ (q : Pair). text_eq d.value q.value && text_eq d.path_text q.path) a.pairs
        (record { value = v; path = p } ∷ []))
      (ground arith)
add_entry-matches d (object (some v) none) a = ground arith
add_entry-matches d (object none (some p)) a = ground arith
add_entry-matches d (object none none) a = ground arith

or_assoc : (a b c : Bool) → ((a || b) || c) ≡ (a || (b || c))
or_assoc a b c = ground arith

add_entries-matches :
    (d : Detection) (es : List AllowEntry) (a : Allowlist)
    → is_allowlisted d (some (add_entries es a))
      ≡ (is_allowlisted d (some a) || any (entry_matches d) es)
unfolding add_entries
add_entries-matches d [] a = ground arith
add_entries-matches d (e ∷ es) a =
    add_entries-matches d es (add_entry e a)
    ∙ ap (λ b. b || any (entry_matches d) es) (add_entry-matches d e a)
    ∙ or_assoc (is_allowlisted d (some a)) (entry_matches d e) (any (entry_matches d) es)

-- A detection is allowlisted exactly when one entry of the configured list states only parts that
-- the detection has, a value, a path or both; no list, or an empty one, allows nothing.
pub is_allowlisted-compile :
    (d : Detection) (entries : Option (List AllowEntry))
    → is_allowlisted d (compile_allowlist entries) ≡ any (entry_matches d) (or_default entries [])
unfolding compile_allowlist is_allowlisted
is_allowlisted-compile d none = refl
is_allowlisted-compile d (some []) = refl
is_allowlisted-compile d (some (e ∷ es)) = add_entries-matches d (e ∷ es) empty_allowlist
