-- ===== src/Store/Tests.antt =====
-- The store over a database that is a list of its entries.
use deadlocker.Base.{
  ◌≡◌, ◌≢◌, refl, Bool, true, false, Option, none, some, List, [], ◌∷◌, Bytes, length, bytes_eq,
  bytes_eq_iff, if◌then◌else◌, arith, ℕ, reverse,
}
use deadlocker.Store.Config.{Config, Version, Database, default_config, open_store}
use deadlocker.Store.Config.Revisions.{StoreCall, saves, restores, revisions, store_calls}
use deadlocker.Store.Scenarios
use deadlocker.Store.Scenarios.{
  ScenarioVersion, ScenarioBuckets, insert_entry, last_entry, scenario_versions,
}
use deadlocker.Store.Scenarios.Revisions.{Write, push_sources, sources, record_all}
use deadlocker.Store.Scenarios.Listing.{versions, down_from, OnlyNewest, record_all-OnlyNewest}

abbrev Entries : Type 0
Entries = List (Bytes × Version)

find_entry : Entries → Bytes → Option Version
find_entry [] k = none
find_entry ((j, v) ∷ rest) k = if bytes_eq j k then some v else find_entry rest k

abbrev has_no_entry : Entries → Bool
has_no_entry [] = true
has_no_entry (_ ∷ _) = false

find_entry_self : (k : Bytes) (v : Version) (es : Entries) → find_entry ((k, v) ∷ es) k ≡ some v
unfolding find_entry
find_entry_self k v es = ground (arith, bytes_eq_iff k k)

find_entry-ne :
    (k j : Bytes) (v : Version) (es : Entries)
    → k ≢ j
    → find_entry ((k, v) ∷ es) j ≡ find_entry es j
unfolding find_entry
find_entry-ne k j v es ne = ground (arith, bytes_eq_iff k j)

find_entry-empty : (es : Entries) (k : Bytes) → has_no_entry es ≡ true → find_entry es k ≡ none
unfolding find_entry
find_entry-empty [] k h = refl
find_entry-empty (e ∷ es) k h = absurd (ground arith)

abbrev entries_database : Database (Entries × Option Bytes) Version
entries_database = record {
  config_get = λ s k. find_entry s.0 k;
  config_put = λ s k v. ((k, v) ∷ s.0, s.1);
  config_is_empty = λ s. has_no_entry s.0;
  current_get = λ s. s.1;
  current_put = λ s v. (s.0, some v);
  marshal = λ v. v;
  unmarshal = λ v. some v;
  config_get-put_self = λ s k v. find_entry_self k v s.0;
  config_get-put_ne = λ s k j v ne. find_entry-ne k j v s.0 ne;
  config_get-current_put = λ s k v. refl;
  current_get-put = λ s v. refl;
  config_get-empty = λ s k h. find_entry-empty s.0 k h;
  unmarshal-marshal = λ v. refl;
}

abbrev store_changes : List StoreCall
store_changes = saves default_config [] 5 ∷ restores 1 6 ∷ restores 9 7 ∷ []

abbrev changed : Entries × Option Bytes
changed = store_calls entries_database (open_store entries_database ([], none) 4) store_changes

abbrev kept_revisions : List Config
kept_revisions = revisions (default_config ∷ []) store_changes

abbrev Buckets : Type 0
Buckets = Bytes → List (Bytes × ScenarioVersion)

put_revision : Buckets → Bytes → Bytes → ScenarioVersion → Buckets
put_revision s id k v = λ j. if bytes_eq id j then insert_entry k v (s id) else s j

put_revision_self :
    (s : Buckets) (id k : Bytes) (v : ScenarioVersion)
    → put_revision s id k v id ≡ insert_entry k v (s id)
unfolding put_revision
put_revision_self s id k v = ground (arith, bytes_eq_iff id id)

put_revision-ne :
    (s : Buckets) (id j k : Bytes) (v : ScenarioVersion) → id ≢ j → put_revision s id k v j ≡ s j
unfolding put_revision
put_revision-ne s id j k v ne = ground (arith, bytes_eq_iff id j)

abbrev buckets : ScenarioBuckets Buckets ScenarioVersion
buckets = record {
  entries = λ s id. s id;
  last = λ s id. last_entry (s id);
  get = λ s id k. Scenarios.find_entry (s id) k;
  put = put_revision;
  marshal = λ v. v;
  unmarshal = λ v. some v;
  last-entries = λ s id. refl;
  get-entries = λ s id k. refl;
  entries-put_self = put_revision_self;
  entries-put_ne = put_revision-ne;
  unmarshal-marshal = λ v. refl;
}

abbrev write : ℕ → ℕ → Write
write n now = record { name = []; path = []; source = n ∷ []; note = []; now = now }

abbrev writes : List Write
writes = write 1 3 ∷ write 1 4 ∷ write 2 5 ∷ write 1 6 ∷ []

abbrev listed : List ScenarioVersion
listed =
    scenario_versions buckets (record_all buckets (λ _. []) (7 ∷ []) writes) (7 ∷ []) (1 ∷ []) 0

record_all-OnlyNewest_example :
    (sources listed ≡ reverse (push_sources [] writes))
    × (versions listed ≡ down_from (length (push_sources [] writes)))
    × OnlyNewest (1 ∷ []) listed
record_all-OnlyNewest_example =
    record_all-OnlyNewest buckets (λ _. []) (7 ∷ []) (1 ∷ []) writes (λ e. ground arith)
      (λ e. ground arith) refl (omega arith)
