-- ===== src/Crypto/Tests.antt =====
-- Runs over a key file with an active and a retired key; a key's text is its bytes.
use haechi.Prelude.{
  ℕ, ◌-◌, ◌≤◌, ◌≡◌, refl, true, false, Option, none, some, List, [], ◌∷◌, replicate, Text, text_eq,
  arith, utf16, find, ok, err,
}
use haechi.Crypto.{
  KeyEntry, LoadedKeys, no_active_key, max_encryptions_per_key, load_key_file, init_local_key_file,
  existing_keys, read_nonce_budget, find_entry,
}
use haechi.Crypto.Budget.{
  Event, encrypting, restarting, rotating, started, encryptions, consume_nonce_budget, needs_window,
}
use haechi.Crypto.Spent.{usage_of}
use haechi.Crypto.Limit.{encryptions-limit}
use haechi.Crypto.Overlap.{overlap, overlap-consume}
use haechi.Crypto.Rotation.{init_local_key_file-load}

abbrev bytes : Text → List ℕ
bytes s = s

abbrev key_of : Text → ℕ → Option Text → Option ℕ → KeyEntry
key_of kid b status usage = record {
  kid = kid;
  material = replicate 32 b;
  status = status;
  usage = usage;
}

abbrev current : KeyEntry
current = key_of (utf16 "b") 7 (some (utf16 "active")) (some 41)

abbrev keys : List KeyEntry
keys = current ∷ key_of (utf16 "a") 3 (some (utf16 "retired")) none ∷ []

abbrev next : KeyEntry
next = key_of (utf16 "c") 9 none none

-- Two encryptions, a new process, and one more: the second process starts at its own window.
abbrev events : List Event
events =
    encrypting (utf16 "b") true
    ∷ encrypting (utf16 "b") true
    ∷ restarting
    ∷ rotating next
    ∷ encrypting (utf16 "b") true
    ∷ encrypting (utf16 "c") true
    ∷ []

counted : encryptions (utf16 "b") events (started keys) ≡ 3
unfolding encryptions
counted = refl

encryptions-limit_example :
    encryptions (utf16 "b") events (started keys)
    ≤ max_encryptions_per_key - usage_of (utf16 "b") keys
unfolding text_eq
encryptions-limit_example =
    encryptions-limit (utf16 "b") events keys (refl, (refl, (tt, (refl, (refl, (refl, tt))))))

abbrev spent_key : KeyEntry
spent_key = record current { usage = some max_encryptions_per_key }

refuses : (consume_nonce_budget (utf16 "b") true (started (spent_key ∷ []))).0 ≡ false
unfolding consume_nonce_budget
refuses = refl

-- A write that fails leaves the file as it is, and the process counts by itself.
counts_alone : (consume_nonce_budget (utf16 "b") false (started keys)).1.persist_disabled ≡ true
unfolding consume_nonce_budget
counts_alone = refl

overlap-consume_example :
    overlap (utf16 "b") true (started keys)
    ≡ (true, true, (consume_nonce_budget (utf16 "b") true (started keys)).1)
unfolding find_entry needs_window
overlap-consume_example =
    overlap-consume (utf16 "b") current (started keys) refl refl refl (omega arith)

budget :
    read_nonce_budget keys
    ≡ ok record { kid = utf16 "b"; used = 41; remaining = 4294967255; exhausted = false }
unfolding read_nonce_budget
budget = refl

abbrev old : LoadedKeys
old = record {
  active = some record { kid = utf16 "b"; bytes = replicate 32 7 };
  by_kid =
      (utf16 "b", record { kid = utf16 "b"; bytes = replicate 32 7 })
      ∷ (utf16 "a", record { kid = utf16 "a"; bytes = replicate 32 3 })
      ∷ [];
}

loads : load_key_file bytes false keys ≡ ok old
unfolding load_key_file
loads = refl

-- A file without an active key serves the provider, not the initialisation.
inactive : load_key_file bytes true (next ∷ []) ≡ err no_active_key
unfolding load_key_file
inactive = refl

init_local_key_file-load_example :
    (loaded : LoadedKeys) × (load_key_file bytes true
        (existing_keys (init_local_key_file bytes true next (some keys)).1)
      ≡ ok loaded)
    × (loaded.active ≡ some record { kid = utf16 "c"; bytes = replicate 32 9 })
    × ((kid : Text)
        → text_eq (utf16 "c") kid ≡ false
        → find kid loaded.by_kid ≡ find kid old.by_kid)
unfolding text_eq
init_local_key_file-load_example =
    init_local_key_file-load bytes next keys old loads (refl, (refl, tt)) refl
