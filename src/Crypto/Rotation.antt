-- ===== src/Crypto/Rotation.antt =====
-- What a rotation keeps of the key file.
use haechi.Prelude.{
  ℕ, ◌≡◌, refl, sym, ap, ◌∙◌, inl, inr, true, false, Bool-cases, Option, none, some, List, [], ◌∷◌,
  map, length, ◌==◌, if◌then◌else◌, Text, text_eq, text_eq_iff, utf16, TextMap, find, put, find-put,
  Result, ok, err, >>=-eq-ok, All, subst,
}
use haechi.Crypto.{
  KeyEntry, bad_key_length, Key, LoadedKeys, CryptoError, find_active, active_entry, loaded, retire,
  rotated_keys, read_keys, load_key_file, existing_keys, init_local_key_file,
}

module _ (decode : Text → List ℕ) where
  -- Two maps give the same keys, but for one identifier.
  Agrees : Text → TextMap Key → TextMap Key → Type 0
  Agrees new m n = (kid : Text) → text_eq new kid ≡ false → find kid m ≡ find kid n

  put-Agrees :
      (new k : Text) (v : Key) (m n : TextMap Key)
      → Agrees new m n
      → Agrees new (put k v m) (put k v n)
  unfolding Agrees
  put-Agrees new k v m n a kid d =
      find-put k kid v m
      ∙ ap (λ o. if text_eq k kid then some v else o) (a kid d)
      ∙ sym (find-put k kid v n)

  same : {m n : TextMap Key} → ◌≡◌ {A = Result CryptoError (TextMap Key)} (ok m) (ok n) → m ≡ n
  same e = cc

  -- The loop reads the retired entries as it reads the entries, and leaves the new key alone.
  record Reads (new : Text) (m : TextMap Key) (es : List KeyEntry) (n : TextMap Key) : Type 0 where
    by_kid : TextMap Key
    reads : read_keys decode (map retire es) n ≡ ok by_kid
    agrees : Agrees new m by_kid
    left : find new by_kid ≡ find new n

  read_keys-Reads :
      (new : Text) (es : List KeyEntry) (m n out : TextMap Key)
      → All (λ e. text_eq e.kid new ≡ false) es
      → Agrees new m n
      → read_keys decode es m ≡ ok out
      → Reads new out es n
  unfolding read_keys retire
  read_keys-Reads new [] m n out d a r = record {
    by_kid = n;
    reads = refl;
    agrees = subst (λ x. Agrees new x n) (same r) a;
    left = refl;
  }
  read_keys-Reads new (e ∷ es) m n out d a r =
      elim (Bool-cases (length (decode e.material) == 32)) [
        | inr f ↦ let bad : err bad_key_length ≡ ok out = (rw f at r) in cc
        | inl t ↦
            let key : Key = record { kid = e.kid; bytes = decode e.material } in
            let ih =
              read_keys-Reads new es (put e.kid key m) (put e.kid key n) out d.1
                (put-Agrees new e.kid key m n a) (rw t at r) in
            record {
              by_kid = ih.by_kid;
              reads = rw t ih.reads;
              agrees = ih.agrees;
              left = ih.left ∙ find-put e.kid new key n ∙ rw d.0 refl;
            }
      ]

  read_keys-first :
      (e : KeyEntry) (es : List KeyEntry)
      → (length (decode e.material) == 32) ≡ true
      → read_keys decode (e ∷ es) []
        ≡ read_keys decode es (put e.kid record { kid = e.kid; bytes = decode e.material } [])
  unfolding read_keys
  read_keys-first e es l = rw l refl

  loaded_keys :
      (o : Option KeyEntry) (m : TextMap Key) (keys : LoadedKeys)
      → loaded decode o m ≡ ok keys
      → m ≡ keys.by_kid
  unfolding loaded
  loaded_keys none m keys e = cc
  loaded_keys (some x) m keys e = ap map_in e
    where
      map_in : Result CryptoError LoadedKeys → TextMap Key
      map_in (ok k) = k.by_kid
      map_in (err x) = m

  -- `haechi init --force` orphans nothing: if the keys of the file load, so do those of the file after the
  -- rotation. The active key is the new one, and every other identifier still stands for the key it stood
  -- for, provided that the new identifier is not among them and the new key has 32 bytes.
  pub init_local_key_file-load :
      (new : KeyEntry) (es : List KeyEntry) (old : LoadedKeys)
      → load_key_file decode false es ≡ ok old
      → All (λ e. text_eq e.kid new.kid ≡ false) es
      → (length (decode new.material) == 32) ≡ true
      → (keys : LoadedKeys) × (load_key_file decode true
            (existing_keys (init_local_key_file decode true new (some es)).1)
          ≡ ok keys)
        × (keys.active ≡ some record { kid = new.kid; bytes = decode new.material })
        × ((kid : Text) → text_eq new.kid kid ≡ false → find kid keys.by_kid ≡ find kid old.by_kid)
  unfolding load_key_file init_local_key_file rotated_keys loaded active_entry find_active Agrees
  init_local_key_file-load new [] old r d l = cc
  init_local_key_file-load new (e ∷ es) old r d l =
      let key : Key = record { kid = new.kid; bytes = decode new.material } in
      let (out, reads, loads) = >>=-eq-ok (read_keys decode (e ∷ es) []) _ r in
      let rest =
        read_keys-Reads new.kid (e ∷ es) [] (put new.kid key []) out d
          (λ kid a. sym (find-put new.kid kid key [] ∙ rw a refl)) reads in
      (
        record { active = find new.kid rest.by_kid; by_kid = rest.by_kid },
        rw
            (
              read_keys-first (record new { status = some (utf16 "active"); usage = none })
                  (map retire (e ∷ es)) l,
              rest.reads,
            )
            refl,
        rest.left
            ∙ find-put new.kid new.kid key []
            ∙ rw ((text_eq_iff new.kid new.kid).1 refl) refl,
        λ kid a.
            sym (rest.agrees kid a)
            ∙ ap (find kid) (loaded_keys (active_entry false (e ∷ es)) out old loads),
      )
