-- ===== src/Store/Scenarios/Revisions.antt =====
-- The revisions of a scenario against the list of its sources (store/scenarios.go).
use deadlocker.Base.{
  ℕ, suc, ◌+◌, ◌%◌, ◌^◌, ◌≤◌, ◌<◌, ◌≡◌, ◌≢◌, inl, inr, refl, sym, ap, ◌∙◌, Bool, true, false,
  Option, none, some, Bool-cases, List, [], ◌∷◌, ◌++◌, Bytes, length, length-append, map, bytes_eq,
  bytes_eq_iff, if◌then◌else◌, arith,
}
use mathlib.Core.Path.{subst}
use deadlocker.Store.Config.{encode_version}
use deadlocker.Store.Config.Versions.{encode-injective}
use deadlocker.Store.Scenarios.{
  ScenarioVersion, Entries, insert_entry, last_entry, ScenarioBuckets, Recorded, id_required,
  recorded, latest_in, write_revision, record_after, record_scenario, readable,
}
use deadlocker.Store.Scenarios.Order.{before-encode}

-- A save: the name, the path, the source, the note and the time.
pub record Write : Type 0 where
  pub name : Bytes
  pub path : Bytes
  pub source : Bytes
  pub note : Bytes
  pub now : ℕ

abbrev last_source : List Bytes → Option Bytes
last_source [] = none
last_source (x ∷ []) = some x
last_source (x ∷ y ∷ rest) = last_source (y ∷ rest)

-- The sources that are kept: one that repeats the newest is not.
abbrev pub push_source : List Bytes → Bytes → List Bytes
push_source xs x = elim (last_source xs) [
  | none ↦ xs ++ (x ∷ [])
  | some y ↦ if bytes_eq y x then xs else xs ++ (x ∷ [])
]

abbrev pub push_sources : List Bytes → List Write → List Bytes
push_sources xs [] = xs
push_sources xs (w ∷ ws) = push_sources (push_source xs w.source) ws

-- The revisions are numbered from here on, and none is stored as the current one.
abbrev pub Numbered : ℕ → List ScenarioVersion → Type 0
Numbered n [] = Unit
Numbered n (v ∷ vs) = (v.version ≡ n) × (v.is_current ≡ false) × Numbered (suc n) vs

abbrev pub sources : List ScenarioVersion → List Bytes
sources = map (λ v. v.source)

abbrev last_version : List ScenarioVersion → Option ScenarioVersion
last_version [] = none
last_version (v ∷ []) = some v
last_version (v ∷ w ∷ rest) = last_version (w ∷ rest)

last_version-number :
    (n : ℕ) (vs : List ScenarioVersion) (v : ScenarioVersion)
    → Numbered n vs
    → last_version vs ≡ some v
    → v.version + 1 ≡ n + length vs
last_version-number n [] v num e = cc
last_version-number n (w ∷ []) v (number, _, _) e = ground (arith, number)
last_version-number n (w ∷ w' ∷ rest) v (number, off, num) e =
    omega (arith, last_version-number (suc n) (w' ∷ rest) v num e)

last_source-last_version :
    (vs : List ScenarioVersion) (v : ScenarioVersion)
    → last_version vs ≡ some v
    → last_source (sources vs) ≡ some v.source
last_source-last_version [] v e = cc
last_source-last_version (w ∷ []) v e = ground arith
last_source-last_version (w ∷ w' ∷ rest) v e = last_source-last_version (w' ∷ rest) v e

last_version-none : (vs : List ScenarioVersion) → last_version vs ≡ none → vs ≡ []
last_version-none [] e = refl
last_version-none (w ∷ []) e = cc
last_version-none (w ∷ w' ∷ rest) e = absurd (ground (arith, last_version-none (w' ∷ rest) e))

Numbered-append :
    (n : ℕ) (vs : List ScenarioVersion) (v : ScenarioVersion)
    → Numbered n vs
    → v.version ≡ n + length vs
    → v.is_current ≡ false
    → Numbered n (vs ++ (v ∷ []))
Numbered-append n [] v num e off = (omega arith, off, tt)
Numbered-append n (w ∷ vs) v (number, now, num) e off =
    (number, now, Numbered-append (suc n) vs v num (omega arith) off)

sources-append :
    (vs : List ScenarioVersion) (v : ScenarioVersion)
    → sources (vs ++ (v ∷ [])) ≡ sources vs ++ (v.source ∷ [])
sources-append [] v = refl
sources-append (w ∷ vs) v = ap (◌∷◌ w.source) (sources-append vs v)

module _ {S P : Type 0} (db : ScenarioBuckets S P) where
  abbrev pub entries_of : List ScenarioVersion → Entries P
  entries_of [] = []
  entries_of (v ∷ vs) = (encode_version v.version, db.marshal v) ∷ entries_of vs

  pub record Holds (s : S) (id : Bytes) (vs : List ScenarioVersion) : Type 0 where
    pub entries : db.entries s id ≡ entries_of vs
    pub numbered : Numbered 1 vs

  entries_of-append :
      (vs : List ScenarioVersion) (v : ScenarioVersion)
      → entries_of (vs ++ (v ∷ []))
        ≡ entries_of vs ++ ((encode_version v.version, db.marshal v) ∷ [])
  entries_of-append [] v = refl
  entries_of-append (w ∷ vs) v =
      ap (◌∷◌ (encode_version w.version, db.marshal w)) (entries_of-append vs v)

  insert-last :
      (n k : ℕ) (p : P) (vs : List ScenarioVersion)
      → Numbered n vs
      → n + length vs ≤ k
      → k < 2 ^ 64
      → insert_entry (encode_version k) p (entries_of vs)
        ≡ entries_of vs ++ ((encode_version k, p) ∷ [])
  unfolding insert_entry
  insert-last n k p [] num le lt = refl
  insert-last n k p (v ∷ vs) (number, off, num) le lt =
      let ne : k ≢ v.version = λ e. omega arith in
      let later = insert-last (suc n) k p vs num (omega arith) lt in
      ground (
        arith,
        later,
        before-encode k v.version lt (omega arith),
        bytes_eq_iff (encode_version k) (encode_version v.version),
        encode-injective k v.version lt (omega arith) ne,
      )

  latest-last :
      (vs : List ScenarioVersion)
      → (elim (last_entry (entries_of vs)) [ none ↦ none | some p ↦ db.unmarshal p ])
        ≡ last_version vs
  unfolding last_entry
  latest-last [] = refl
  latest-last (v ∷ []) = db.unmarshal-marshal v
  latest-last (v ∷ w ∷ rest) = latest-last (w ∷ rest)

  pub readable_all : (vs : List ScenarioVersion) → readable db (entries_of vs) ≡ vs
  unfolding readable
  readable_all [] = refl
  readable_all (v ∷ vs) = ground (arith, readable_all vs, db.unmarshal-marshal v)

  write-Holds :
      (s : S) (id : Bytes) (vs : List ScenarioVersion) (name path source note : Bytes) (now : ℕ)
      → Holds s id vs
      → length vs + 1 < 2 ^ 64
      → (s' : S) × (v : ScenarioVersion) × (w : ScenarioVersion) × (write_revision db s id
            (length vs + 1)
            name
            path
            source
            note
            now
          ≡ recorded s' w true)
        × Holds s' id (vs ++ (v ∷ []))
        × (v.source ≡ source)
  unfolding write_revision
  write-Holds s id vs name path source note now h room =
      let v : ScenarioVersion = record {
        scenario_id = id;
        version = length vs + 1;
        saved_at = now;
        note = note;
        name = name;
        path = path;
        source = source;
        is_current = false;
      } in
      (
        db.put s id (encode_version v.version) (db.marshal v),
        v,
        record v { is_current = true },
        refl,
        record {
          entries =
              db.entries-put_self s id (encode_version v.version) (db.marshal v)
              ∙ ap (insert_entry (encode_version v.version) (db.marshal v)) h.entries
              ∙ insert-last 1 v.version (db.marshal v) vs h.numbered (omega arith) room
              ∙ sym (entries_of-append vs v);
          numbered = Numbered-append 1 vs v h.numbered (omega arith) refl;
        },
        refl,
      )

  -- The sources after a write.
  pushed :
      (vs : List ScenarioVersion) (v : ScenarioVersion) (source : Bytes)
      → v.source ≡ source
      → push_source (sources vs) source ≡ sources vs ++ (source ∷ [])
      → sources (vs ++ (v ∷ [])) ≡ push_source (sources vs) source
  pushed vs v source e p = sources-append vs v ∙ ap (λ x. sources vs ++ (x ∷ [])) e ∙ sym p

  abbrev Appended : S → Bytes → List ScenarioVersion → Bytes → Recorded S → Type 0
  Appended s id vs source out =
      (s' : S) × (vs' : List ScenarioVersion) × (v : ScenarioVersion) × (written : Bool) × (out
        ≡ recorded s' v written)
      × Holds s' id vs'
      × (sources vs' ≡ push_source (sources vs) source)
      × (length vs' ≤ length vs + 1)

  write-Appended :
      (s : S) (id : Bytes) (vs : List ScenarioVersion) (name path source note : Bytes) (now : ℕ)
      → Holds s id vs
      → length vs + 1 < 2 ^ 64
      → push_source (sources vs) source ≡ sources vs ++ (source ∷ [])
      → Appended s id vs source (write_revision db s id (length vs + 1) name path source note now)
  write-Appended s id vs name path source note now h room p =
      let (s', v, w, e, holds, src) = write-Holds s id vs name path source note now h room in
      (
        s',
        vs ++ (v ∷ []),
        w,
        true,
        e,
        holds,
        pushed vs v source src p,
        omega (arith, length-append vs (v ∷ [])),
      )

  after-Appended :
      (s : S) (id : Bytes) (vs : List ScenarioVersion) (latest : Option ScenarioVersion)
      (name path source note : Bytes) (now : ℕ)
      → last_version vs ≡ latest
      → Holds s id vs
      → length vs + 1 < 2 ^ 64
      → Appended s id vs source (record_after db s id latest name path source note now)
  unfolding record_after
  after-Appended s id vs none name path source note now e h room =
      let empty = last_version-none vs e in
      let one : length vs + 1 ≡ 1 = ap (λ l. length l + 1) empty in
      subst (λ n. Appended s id vs source (write_revision db s id n name path source note now)) one
        (write-Appended s id vs name path source note now h room (rw empty refl))
  after-Appended s id vs (some prev) name path source note now e h room =
      let newest = last_source-last_version vs prev e in
      let next : (prev.version + 1) % 2 ^ 64 ≡ length vs + 1 =
        omega (arith, last_version-number 1 vs prev h.numbered e) in
      elim (Bool-cases (bytes_eq prev.source source)) [
        | inl same ↦
            rw (same, record_after)
              (
                s,
                vs,
                record prev { is_current = true },
                false,
                refl,
                h,
                ground (arith, newest, same),
                omega arith,
              )
        | inr differ ↦
            rw (differ, next, record_after)
              (write-Appended s id vs name path source note now h room
                (ground (arith, newest, differ)))
      ]

  -- Recording a source appends a revision with it, unless the newest revision has it already.
  record-Appended :
      (s : S) (id : Bytes) (vs : List ScenarioVersion) (name path source note : Bytes) (now : ℕ)
      → id ≢ []
      → Holds s id vs
      → length vs + 1 < 2 ^ 64
      → Appended s id vs source (record_scenario db s id name path source note now)
  unfolding record_scenario latest_in
  record-Appended s id vs name path source note now named h room =
      let latest : latest_in db s id ≡ last_version vs =
        ap (λ e. elim e [ none ↦ none | some p ↦ db.unmarshal p ])
          (db.last-entries s id ∙ ap last_entry h.entries)
        ∙ latest-last vs in
      let is_named : bytes_eq id [] ≡ false = ground (arith, bytes_eq_iff id []) in
      rw (is_named, record_scenario)
        (after-Appended s id vs (latest_in db s id) name path source note now (sym latest) h room)

  abbrev pub state_of : S → Recorded S → S
  state_of s id_required = s
  state_of s (recorded s' _ _) = s'

  -- The state after these saves of a scenario.
  abbrev pub record_all : S → Bytes → List Write → S
  record_all s id [] = s
  record_all s id (w ∷ ws) =
      record_all (state_of s (record_scenario db s id w.name w.path w.source w.note w.now)) id ws

  pub all-Holds :
      (s : S) (id : Bytes) (vs : List ScenarioVersion) (ws : List Write)
      → id ≢ []
      → Holds s id vs
      → length vs + length ws < 2 ^ 64
      → (vs' : List ScenarioVersion) × Holds (record_all s id ws) id vs'
        × (sources vs' ≡ push_sources (sources vs) ws)
  all-Holds s id vs [] named h room = (vs, h, refl)
  all-Holds s id vs (w ∷ ws) named h room =
      let (s', vs1, v, written, e, holds, src, le) =
        record-Appended s id vs w.name w.path w.source w.note w.now named h (omega arith) in
      let (vs', holds', src') = all-Holds s' id vs1 ws named holds (omega arith) in
      (vs', rw (ap (state_of s) e) holds', src' ∙ ap (λ x. push_sources x ws) src)
