-- ===== src/Store/Drafts.antt =====
-- The drafts of scenarios (store/drafts.go).
pub mod Bucket
pub mod Pruned
pub mod Kept
mod Tests
use deadlocker.Base.{
  ℕ, ◌+◌, ltb, leb, ◌==◌, ◌≡◌, Bool, true, false, Option, none, some, List, [], ◌∷◌, Bytes, length,
  drop, bytes_eq, str, trim_space, text_before, sort_by, All, if◌then◌else◌,
}
use deadlocker.Store.Scenarios.{insert_entry, find_entry, limited}

-- A time is a number, and the zero time is 0.
pub record Draft : Type 0 where
  pub id : Bytes
  pub name : Bytes
  pub source : Bytes
  pub scenario_id : Bytes
  pub path : Bytes
  pub created_at : ℕ
  pub updated_at : ℕ

abbrev pub max_drafts : ℕ
max_drafts = 60

-- What a deletion does to a bucket.
unfoldable pub remove_entry {ℓ} : {P : Type ℓ} → Bytes → List (Bytes × P) → List (Bytes × P)
remove_entry k [] = []
remove_entry k ((j, p) ∷ rest) =
    let later = remove_entry k rest in if bytes_eq j k then later else (j, p) ∷ later

-- The keys ascend.
abbrev pub InOrder {ℓ} : {P : Type ℓ} → List (Bytes × P) → Type ℓ
InOrder [] = Unit
InOrder {P} ((k, p) ∷ rest) = All (λ (e : Bytes × P). text_before k e.0 ≡ true) rest × InOrder rest

-- What the code relies on of bbolt and of encoding/json, within one transaction: the bucket of the drafts,
-- which has no entries as long as it does not exist.
pub record DraftBucket (S P : Type 0) : Type 0 where
  pub entries : S → List (Bytes × P)
  pub get : S → Bytes → Option P
  pub put : S → Bytes → P → S
  pub delete : S → Bytes → S
  pub marshal : Draft → P
  pub unmarshal : P → Option Draft
  pub in_order : (s : S) → InOrder (entries s)
  pub get-entries : (s : S) (k : Bytes) → get s k ≡ find_entry (entries s) k
  pub entries-put : (s : S) (k : Bytes) (p : P) → entries (put s k p) ≡ insert_entry k p (entries s)
  pub entries-delete : (s : S) (k : Bytes) → entries (delete s k) ≡ remove_entry k (entries s)
  pub unmarshal-marshal : (d : Draft) → unmarshal (marshal d) ≡ some d

-- The error of a draft without source, or the state and the draft as it is stored.
pub data SavedDraft (S : Type 0) : Type 0 where
  source_required : SavedDraft S
  saved : S → Draft → SavedDraft S

unfoldable pub touched_later : Draft → Draft → Bool
touched_later a b = ltb b.updated_at a.updated_at

unfoldable pub named : Draft → Draft
named d = if bytes_eq d.name [] then record d { name = str "Untitled scenario" } else d

unfoldable pub with_id : Bytes → Draft → Draft
with_id new_id d = if bytes_eq d.id [] then record d { id = new_id } else d

-- The start that an earlier draft had, if it had one.
unfoldable pub started_at : Option Draft → ℕ → ℕ
started_at none created = created
started_at (some prev) created = if prev.created_at == 0 then created else prev.created_at

unfoldable pub stamped : Option Draft → ℕ → Draft → Draft
stamped prev now d =
    let created = started_at prev d.created_at in
    record d { created_at = if created == 0 then now else created; updated_at = now }

-- The first draft that holds edits to this scenario.
unfoldable pub first_for : List Draft → Bytes → Option Draft
first_for [] id = none
first_for (d ∷ ds) id = if bytes_eq d.scenario_id id then some d else first_for ds id

module _ {S P : Type 0} (db : DraftBucket S P) where
  -- What can be read; what cannot is passed over.
  unfoldable pub readable_drafts : List (Bytes × P) → List Draft
  readable_drafts [] = []
  readable_drafts ((k, payload) ∷ rest) = elim (db.unmarshal payload) [
    | none ↦ readable_drafts rest
    | some d ↦ d ∷ readable_drafts rest
  ]

  unfoldable pub read_drafts : S → List Draft
  read_drafts s = sort_by touched_later (readable_drafts (db.entries s))

  unfoldable pub delete_drafts : S → List Draft → S
  delete_drafts s [] = s
  delete_drafts s (d ∷ ds) = delete_drafts (db.delete s d.id) ds

  unfoldable pub prune_drafts : S → S
  prune_drafts s =
      let all = read_drafts s in
      if leb (length all) max_drafts then s else delete_drafts s (drop max_drafts all)

  -- `none` is a draft that is missing, or the error of one that cannot be read.
  unfoldable pub stored_draft : S → Bytes → Option Draft
  stored_draft s id = elim (db.get s id) [ none ↦ none | some payload ↦ db.unmarshal payload ]

  unfoldable pub store_draft : S → Draft → ℕ → SavedDraft S
  store_draft s d now =
      let d' = stamped (stored_draft s d.id) now d in
      saved (prune_drafts (db.put s d'.id (db.marshal d'))) d'

  -- `new_id` is what `newDraftID` gives.
  unfoldable pub save_draft : S → Draft → Bytes → ℕ → SavedDraft S
  save_draft s d new_id now =
      if bytes_eq (trim_space d.source) []
      then source_required
      else store_draft s (with_id new_id (named d)) now

  unfoldable pub drafts : S → ℕ → List Draft
  drafts s limit = limited limit (read_drafts s)

  unfoldable pub draft_for_scenario : S → Bytes → Option Draft
  draft_for_scenario s id = if bytes_eq id [] then none else first_for (drafts s 0) id

  unfoldable pub delete_draft : S → Bytes → S
  delete_draft s id = db.delete s id
