-- ===== src/Store/Scenarios.antt =====
-- The revisions of the scenarios (store/scenarios.go).
pub mod Order
pub mod Revisions
pub mod Listing
use deadlocker.Base.{
  ℕ, ◌+◌, ◌%◌, ◌^◌, ltb, ◌≡◌, ◌≢◌, Bool, true, false, not, ◌&&◌, Option, none, some, List, [], ◌∷◌,
  ◌++◌, Bytes, length, take, bytes_eq, text_before, sort_by, map, if◌then◌else◌,
}
use deadlocker.Store.Config.{encode_version}

pub record ScenarioVersion : Type 0 where
  pub scenario_id : Bytes
  pub version : ℕ
  pub saved_at : ℕ
  pub note : Bytes
  pub name : Bytes
  pub path : Bytes
  pub source : Bytes
  pub is_current : Bool

-- A bucket's entries, in the order of their keys.
abbrev pub Entries : Type 0 → Type 0
Entries P = List (Bytes × P)

-- What a write does to a bucket: the keys stay in order, and a key that is there already is written over.
unfoldable pub insert_entry {ℓ} : {P : Type ℓ} → Bytes → P → List (Bytes × P) → List (Bytes × P)
insert_entry k p [] = (k, p) ∷ []
insert_entry k p ((j, q) ∷ rest) =
    let later = insert_entry k p rest in
    if bytes_eq k j
    then (k, p) ∷ rest
    else if text_before k j
    then (k, p) ∷ (j, q) ∷ rest
    else (j, q) ∷ later

unfoldable pub find_entry {ℓ} : {P : Type ℓ} → List (Bytes × P) → Bytes → Option P
find_entry [] k = none
find_entry ((j, q) ∷ rest) k = if bytes_eq j k then some q else find_entry rest k

unfoldable pub last_entry {ℓ} : {P : Type ℓ} → List (Bytes × P) → Option P
last_entry [] = none
last_entry ((k, p) ∷ []) = some p
last_entry (e ∷ e' ∷ rest) = last_entry (e' ∷ rest)

-- What the code relies on of bbolt and of encoding/json, within one transaction: a scenario's bucket,
-- which has no entries as long as it does not exist, its last entry, its entry under a key, and its
-- entries in the order of the keys.
pub record ScenarioBuckets (S P : Type 0) : Type 0 where
  pub entries : S → Bytes → Entries P
  pub last : S → Bytes → Option P
  pub get : S → Bytes → Bytes → Option P
  pub put : S → Bytes → Bytes → P → S
  pub marshal : ScenarioVersion → P
  pub unmarshal : P → Option ScenarioVersion
  pub last-entries : (s : S) (id : Bytes) → last s id ≡ last_entry (entries s id)
  pub get-entries : (s : S) (id k : Bytes) → get s id k ≡ find_entry (entries s id) k
  pub entries-put_self :
      (s : S) (id k : Bytes) (p : P) → entries (put s id k p) id ≡ insert_entry k p (entries s id)
  pub entries-put_ne :
      (s : S) (id j k : Bytes) (p : P) → id ≢ j → entries (put s id k p) j ≡ entries s j
  pub unmarshal-marshal : (v : ScenarioVersion) → unmarshal (marshal v) ≡ some v

-- The error of an empty id, or the state with the revision and whether it was written.
pub data Recorded (S : Type 0) : Type 0 where
  id_required : Recorded S
  recorded : S → ScenarioVersion → Bool → Recorded S

-- Marks the first revision with this source.
unfoldable pub mark_current : Bytes → List ScenarioVersion → List ScenarioVersion
mark_current source [] = []
mark_current source (v ∷ vs) =
    let later = mark_current source vs in
    if bytes_eq v.source source then record v { is_current = true } ∷ vs else v ∷ later

-- The errors of `ScenarioVersion`. A scenario without revisions has no bucket, or an empty one.
pub data VersionError : Type 0 where
  no_version unreadable : VersionError

pub data Looked : Type 0 where
  missing : VersionError → Looked
  found : ScenarioVersion → Looked

unfoldable pub newer : ScenarioVersion → ScenarioVersion → Bool
newer a b = ltb b.version a.version

-- A limit that is not positive is none.
unfoldable pub limited {ℓ} : {A : Type ℓ} → ℕ → List A → List A
limited limit xs = if ltb 0 limit && ltb limit (length xs) then take limit xs else xs

module _ {S P : Type 0} (db : ScenarioBuckets S P) where
  unfoldable pub latest_in : S → Bytes → Option ScenarioVersion
  latest_in s id = elim (db.last s id) [ none ↦ none | some payload ↦ db.unmarshal payload ]

  unfoldable pub write_revision : S → Bytes → ℕ → Bytes → Bytes → Bytes → Bytes → ℕ → Recorded S
  write_revision s id next name path source note now =
      let saved : ScenarioVersion = record {
        scenario_id = id;
        version = next;
        saved_at = now;
        note = note;
        name = name;
        path = path;
        source = source;
        is_current = false;
      } in
      recorded (db.put s id (encode_version next) (db.marshal saved))
        (record saved { is_current = true }) true

  unfoldable pub record_after :
      S → Bytes → Option ScenarioVersion → Bytes → Bytes → Bytes → Bytes → ℕ → Recorded S
  record_after s id none name path source note now = write_revision s id 1 name path source note now
  record_after s id (some prev) name path source note now =
      if bytes_eq prev.source source
      then recorded s (record prev { is_current = true }) false
      else write_revision s id ((prev.version + 1) % 2 ^ 64) name path source note now

  unfoldable pub record_scenario : S → Bytes → Bytes → Bytes → Bytes → Bytes → ℕ → Recorded S
  record_scenario s id name path source note now =
      if bytes_eq id []
      then id_required
      else record_after s id (latest_in s id) name path source note now

  -- What can be read of the entries; what cannot is passed over.
  unfoldable pub readable : Entries P → List ScenarioVersion
  readable [] = []
  readable ((k, payload) ∷ rest) = elim (db.unmarshal payload) [
    | none ↦ readable rest
    | some v ↦ v ∷ readable rest
  ]

  unfoldable pub scenario_versions : S → Bytes → Bytes → ℕ → List ScenarioVersion
  scenario_versions s id current limit =
      let sorted = sort_by newer (readable (db.entries s id)) in
      limited limit (if bytes_eq current [] then sorted else mark_current current sorted)

  unfoldable pub scenario_version : S → Bytes → ℕ → Looked
  scenario_version s id version = elim (db.get s id (encode_version version)) [
    | none ↦ missing no_version
    | some payload ↦ elim (db.unmarshal payload) [ none ↦ missing unreadable | some v ↦ found v ]
  ]
