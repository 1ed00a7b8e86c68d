-- ===== src/Store/Config/Versions.antt =====
-- The store against a list of configurations (store/store.go).
use deadlocker.Base.{
  ℕ, zero, suc, ◌+◌, ◌^◌, ◌≤◌, ◌<◌, ◌≡◌, ◌≢◌, ◌⊎◌, inl, inr, refl, sym, ap, ◌∙◌, true, false,
  Option, none, some, Option-cases, List, [], ◌∷◌, ◌++◌, Bytes, length, get_elem?, length-append,
  get_elem?-none, le_bytes, little_endian-le_bytes, reverse-reverse, arith, Bool-cases, ◌==◌,
}
use deadlocker.Base.{str, decimal}
use deadlocker.Store.Config.{
  Config, Version, Database, default_config, normalise, encode_version, decode_version,
  write_version, open_store, next_version, current, current_payload, new_version, append_version,
  save, restore, restore_payload, saved, rejected, no_such_version,
}

-- The version that stands under this number, if a version does.
abbrev pub nth_version {ℓ} : {A : Type ℓ} → List A → ℕ → Option A
nth_version cs zero = none
nth_version cs (suc n) = get_elem? cs n

decode-encode : (v : ℕ) → v < 2 ^ 64 → decode_version (encode_version v) ≡ v
unfolding decode_version encode_version
decode-encode v h = rw (reverse-reverse (le_bytes 8 v)) (little_endian-le_bytes 8 v h)

pub encode-injective :
    (u v : ℕ) → u < 2 ^ 64 → v < 2 ^ 64 → u ≢ v → encode_version u ≢ encode_version v
encode-injective u v hu hv ne e =
    ne (sym (decode-encode u hu) ∙ ap decode_version e ∙ decode-encode v hv)

nth_version-last :
    {A : Type 0} (cs : List A) (c : A) → nth_version (cs ++ (c ∷ [])) (suc (length cs)) ≡ some c
nth_version-last [] c = refl
nth_version-last (x ∷ xs) c = nth_version-last xs c

nth_version-append :
    {A : Type 0} (cs : List A) (c : A) (n : ℕ)
    → n ≢ length cs + 1
    → nth_version (cs ++ (c ∷ [])) n ≡ nth_version cs n
nth_version-append cs c zero ne = refl
nth_version-append [] c (suc zero) ne = absurd (ground arith)
nth_version-append [] c (suc (suc n)) ne = refl
nth_version-append (x ∷ xs) c (suc zero) ne = refl
nth_version-append (x ∷ xs) c (suc (suc n)) ne =
    nth_version-append xs c (suc n) (λ e. ne (ground arith))

last_there : {A : Type 0} (cs : List A) → 1 ≤ length cs → ¬ (nth_version cs (length cs) ≡ none)
last_there [] le e = omega arith
last_there (x ∷ xs) le e = omega (arith, get_elem?-none (x ∷ xs) (length xs) e)

only_first : {A : Type 0} (x : A) (n : ℕ) (c : A) → nth_version (x ∷ []) n ≡ some c → ¬ (n ≢ 1)
only_first x zero c e ne = absurd (ground arith)
only_first x (suc zero) c e ne = ne refl
only_first x (suc (suc n)) c e ne = absurd (ground arith)

module _ {S P : Type 0} (db : Database S P) where
  -- What is read under a version's number.
  abbrev pub entry : S → ℕ → Option (Option Version)
  entry s n = elim (db.config_get s (encode_version n)) [
    | none ↦ none
    | some payload ↦ some (db.unmarshal payload)
  ]

  -- The database holds these configurations, as versions 1, 2, 3, and the last one is current.
  pub record Represents (s : S) (cs : List Config) : Type 0 where
    pub some_version : 1 ≤ length cs
    pub bounded : length cs < 2 ^ 64
    pub is_current : db.current_get s ≡ some (encode_version (length cs))
    pub missing :
        (n : ℕ) → n < 2 ^ 64 → nth_version cs n ≡ none → db.config_get s (encode_version n) ≡ none
    pub present :
        (n : ℕ) (c : Config)
        → n < 2 ^ 64
        → nth_version cs n ≡ some c
        → (v : Version) × (db.config_get s (encode_version n) ≡ some (db.marshal v))
          × (v.config ≡ c)
          × (v.version ≡ n)

  write-Represents :
      (s : S) (cs : List Config) (v : Version)
      → Represents s cs
      → length cs + 1 < 2 ^ 64
      → v.version ≡ length cs + 1
      → Represents (write_version db s v) (cs ++ (v.config ∷ []))
  unfolding write_version
  write-Represents s cs v r room number =
      let total : length (cs ++ (v.config ∷ [])) ≡ length cs + 1 =
        length-append cs (v.config ∷ []) in
      let k = encode_version v.version in
      record {
        some_version = omega arith;
        bounded = omega arith;
        is_current = rw (total, ← number) (db.current_get-put (db.config_put s k (db.marshal v)) k);
        missing = λ n lt absent. elim (Bool-cases (n == v.version)) [
          | inl same ↦
              let e : n ≡ suc (length cs) = ground arith in
              let last = nth_version-last cs v.config in
              absurd (ground (arith, ap (nth_version (cs ++ (v.config ∷ []))) e))
          | inr differ ↦
              let ne : n ≢ length cs + 1 = ground arith in
              let ne' : v.version ≢ n = ground arith in
              db.config_get-current_put (db.config_put s k (db.marshal v)) (encode_version n) k
              ∙ db.config_get-put_ne s k (encode_version n) (db.marshal v)
                  (encode-injective v.version n (omega arith) lt ne')
              ∙ r.missing n lt (sym (nth_version-append cs v.config n ne) ∙ absent)
        ];
        present = λ n c lt there. elim (Bool-cases (n == v.version)) [
          | inl same ↦
              let e : n ≡ v.version = ground arith in
              let e' : n ≡ suc (length cs) = ground arith in
              let last = nth_version-last cs v.config in
              (
                v,
                rw e (
                    db.config_get-current_put (db.config_put s k (db.marshal v)) k k
                    ∙ db.config_get-put_self s k (db.marshal v)),
                ground (arith, ap (nth_version (cs ++ (v.config ∷ []))) e'),
                sym e,
              )
          | inr differ ↦
              let ne : n ≢ length cs + 1 = ground arith in
              let ne' : v.version ≢ n = ground arith in
              let (old, found, config, number') =
                r.present n c lt (sym (nth_version-append cs v.config n ne) ∙ there) in
              (
                old,
                db.config_get-current_put (db.config_put s k (db.marshal v)) (encode_version n) k
                    ∙ db.config_get-put_ne s k (encode_version n) (db.marshal v)
                        (encode-injective v.version n (omega arith) lt ne')
                    ∙ found,
                config,
                number',
              )
        ];
      }

  next-Represents :
      (s : S) (cs : List Config)
      → Represents s cs
      → length cs + 1 < 2 ^ 64
      → next_version db s ≡ length cs + 1
  unfolding next_version
  next-Represents s cs r room = ground (arith, r.is_current, decode-encode (length cs) r.bounded)

  -- A save appends its configuration, under the next number.
  pub save-Represents :
      (s : S) (cs : List Config) (c : Config) (note : Bytes) (now : ℕ)
      → Represents s cs
      → length cs + 1 < 2 ^ 64
      → (s' : S) × (v : Version) × (save db s c note now ≡ saved s' v)
        × Represents s' (cs ++ (normalise c ∷ []))
        × (v.version ≡ length cs + 1)
  unfolding save append_version new_version
  save-Represents s cs c note now r room =
      let v = new_version db s now note (normalise c) in
      (
        write_version db s v,
        record v { is_current = true },
        refl,
        write-Represents s cs v r room (next-Represents s cs r room),
        next-Represents s cs r room,
      )

  -- A restore appends the configuration of the version it names, or is refused when there is none.
  pub restore-Represents :
      (s : S) (cs : List Config) (n now : ℕ)
      → Represents s cs
      → length cs + 1 < 2 ^ 64
      → n < 2 ^ 64
      → ((nth_version cs n ≡ none) × (restore db s n now ≡ rejected (no_such_version n)))
        ⊎ ((c : Config) × (s' : S) × (v : Version) × (nth_version cs n ≡ some c)
            × (restore db s n now ≡ saved s' v)
            × Represents s' (cs ++ (c ∷ []))
            × (v.version ≡ length cs + 1))
  unfolding restore restore_payload append_version new_version
  restore-Represents s cs n now r room lt = elim (Option-cases (nth_version cs n)) [
    | inl absent ↦ inl (absent, rw (r.missing n lt absent))
    | inr (c, there) ↦
        let (old, found, config, number) = r.present n c lt there in
        let v = new_version db s now (str "restored from version " ++ decimal n) old.config in
        inr (
          c,
          write_version db s v,
          record v { is_current = true },
          there,
          ground (arith, found, db.unmarshal-marshal old),
          rw (← config) (write-Represents s cs v r room (next-Represents s cs r room)),
          next-Represents s cs r room,
        )
  ]

  -- The current configuration is the last one.
  pub current-Represents :
      (s : S) (cs : List Config)
      → Represents s cs
      → (c : Config) × (nth_version cs (length cs) ≡ some c)
        × (current db s ≡ some (normalise c, length cs))
  unfolding current current_payload
  current-Represents s cs r = elim (Option-cases (nth_version cs (length cs))) [
    | inl absent ↦ absurd (last_there cs r.some_version absent)
    | inr (c, there) ↦
        let (v, found, config, number) = r.present (length cs) c r.bounded there in
        (
          c,
          there,
          ground (
            arith,
            r.is_current,
            found,
            db.unmarshal-marshal v,
            config,
            decode-encode (length cs) r.bounded,
          ),
        )
  ]

  pub open-Represents :
      (s : S) (now : ℕ)
      → db.config_is_empty s ≡ true
      → Represents (open_store db s now) (default_config ∷ [])
  unfolding open_store write_version
  open-Represents s now empty =
      let v : Version = record {
        version = 1;
        saved_at = now;
        note = str "initial defaults";
        config = default_config;
        is_current = false;
      } in
      let k = encode_version 1 in
      let s1 = db.config_put s k (db.marshal v) in
      record {
        some_version = omega arith;
        bounded = omega arith;
        is_current = rw empty (db.current_get-put s1 k);
        missing = λ n lt absent. rw empty (elim (Bool-cases (n == 1)) [
          | inl same ↦
              let e : n ≡ 1 = ground arith in
              absurd (ground (arith, ap (nth_version (default_config ∷ [])) e))
          | inr differ ↦
              let ne : 1 ≢ n = ground arith in
              db.config_get-current_put s1 (encode_version n) k
              ∙ db.config_get-put_ne s k (encode_version n) (db.marshal v)
                  (encode-injective 1 n (omega arith) lt ne)
              ∙ db.config_get-empty s (encode_version n) empty
        ]);
        present = λ n c lt there. elim (Bool-cases (n == 1)) [
          | inl same ↦
              let e : n ≡ 1 = ground arith in
              (
                v,
                rw (e, empty)
                    (db.config_get-current_put s1 k k ∙ db.config_get-put_self s k (db.marshal v)),
                ground (arith, ap (nth_version (default_config ∷ [])) e),
                sym e,
              )
          | inr differ ↦ absurd (only_first default_config n c there (ground arith))
        ];
      }
