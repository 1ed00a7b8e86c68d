-- ===== src/Engine/Data.antt =====
-- The locks of a snapshot on the rows of a table (engine/data.go). Two names are equal but for their
-- case when they are equal in capitals: their letters are taken to be ASCII.
pub mod Key
pub mod Split
pub mod Places
pub mod Annotated
mod Tests
use deadlocker.Base.{
  ℕ, zero, suc, ◌+◌, ltb, ◌==◌, Bool, true, false, not, ◌&&◌, ◌||◌, Option, none, some, List, [],
  ◌∷◌, ◌++◌, Bytes, length, bytes_eq, str, to_upper, if◌then◌else◌,
}
use deadlocker.Engine.Types.{Lock, LockSnapshot}
use deadlocker.Engine.Data.Key.{
  contains_text, equal_fold, names_supremum, split_lock_data, key_matches,
}

-- What a lock covers.
pub data LockKind : Type 0 where
  table_lock insert_intention record_lock gap_lock next_key : LockKind

pub record RowLock : Type 0 where
  pub actor : Bytes
  pub mode : Bytes
  pub status : Bytes
  pub index : Bytes
  pub lock_data : Bytes
  pub object : Bytes
  pub kind : LockKind
  pub explain : Bytes

pub record DataRow : Type 0 where
  pub values : List Bytes
  pub nulls : List Bool
  pub key : List Bytes
  pub locks : List RowLock
  pub gap_locks : List RowLock

-- The time of the snapshot and what only describes the read are left out.
pub record TableView : Type 0 where
  pub table : Bytes
  pub index : Bytes
  pub columns : List Bytes
  pub rows : List DataRow
  pub supremum : List RowLock
  pub unmatched : List RowLock
  pub other_index : List RowLock

unfoldable pub until_hash : Bytes → Bytes
until_hash [] = []
until_hash (c ∷ s) = let rest = until_hash s in if bytes_eq (c ∷ []) (str "#") then [] else c ∷ rest

-- A name that begins with the sign stays whole.
unfoldable pub base_table : Bytes → Bytes
base_table name = let base = until_hash name in if ltb 0 (length base) then base else name

unfoldable pub lock_kind : Lock → LockKind
lock_kind l =
    let upper = to_upper l.lock_mode in
    if equal_fold l.lock_type (str "TABLE")
    then table_lock
    else if contains_text upper (str "INSERT_INTENTION")
    then insert_intention
    else if contains_text upper (str "REC_NOT_GAP")
    then record_lock
    else if contains_text upper (str "GAP")
    then gap_lock
    else next_key

unfoldable pub covers_record : LockKind → Bool
covers_record record_lock = true
covers_record next_key = true
covers_record _ = false

unfoldable pub covers_gap : LockKind → Bool
covers_gap gap_lock = true
covers_gap next_key = true
covers_gap insert_intention = true
covers_gap _ = false

unfoldable pub is_table_lock : LockKind → Bool
is_table_lock table_lock = true
is_table_lock _ = false

-- The first row with this key, counted from `i`.
unfoldable pub find_key : ℕ → List Bytes → List DataRow → Option ℕ
find_key i want [] = none
find_key i want (r ∷ rows) =
    let later = find_key (i + 1) want rows in if key_matches r.key want then some i else later

unfoldable pub other_indexes : Bytes → Bytes → Bool
other_indexes a b = ltb 0 (length a) && ltb 0 (length b) && not (equal_fold a b)

unfoldable pub find_row : List DataRow → Bytes → Bytes → Bytes → Option ℕ
find_row rows lock_index view_index lock_data =
    let want = split_lock_data lock_data in
    if other_indexes lock_index view_index
    then none
    else if length want == 0
    then none
    else find_key 0 want rows

unfoldable pub row_lock : Bytes → Lock → RowLock
row_lock table l = record {
  actor = l.actor;
  mode = l.lock_mode;
  status = l.lock_status;
  index = l.index;
  lock_data = l.lock_data;
  object = if equal_fold l.table table then [] else l.table;
  kind = lock_kind l;
  explain = l.explain;
}

unfoldable pub clear_row : DataRow → DataRow
clear_row r = record r { locks = []; gap_locks = [] }

unfoldable pub clear_rows : List DataRow → List DataRow
clear_rows [] = []
clear_rows (r ∷ rows) = clear_row r ∷ clear_rows rows

unfoldable pub clear_view : TableView → TableView
clear_view v = record v {
  supremum = [];
  unmatched = [];
  other_index = [];
  rows = clear_rows v.rows;
}

unfoldable pub add_to_row : RowLock → DataRow → DataRow
add_to_row rl r = record r {
  gap_locks = if covers_gap rl.kind then r.gap_locks ++ (rl ∷ []) else r.gap_locks;
  locks = if covers_record rl.kind then r.locks ++ (rl ∷ []) else r.locks;
}

unfoldable pub add_at : ℕ → RowLock → List DataRow → List DataRow
add_at i rl [] = []
add_at zero rl (r ∷ rows) = add_to_row rl r ∷ rows
add_at (suc i) rl (r ∷ rows) = r ∷ add_at i rl rows

-- The body of the loop.
unfoldable pub annotate_lock : Bytes → TableView → Lock → TableView
annotate_lock table v l =
    let rl = row_lock table l in
    if not (equal_fold (base_table l.table) table)
    then v
    else if is_table_lock rl.kind
    then v
    else if other_indexes l.index v.index
    then record v { other_index = v.other_index ++ (rl ∷ []) }
    else if names_supremum l.lock_data
    then record v { supremum = v.supremum ++ (rl ∷ []) }
    else elim (find_row v.rows l.index v.index l.lock_data) [
      | none ↦ record v { unmatched = v.unmatched ++ (rl ∷ []) }
      | some at ↦ record v { rows = add_at at rl v.rows }
    ]

unfoldable pub annotate_all : Bytes → TableView → List Lock → TableView
annotate_all table v [] = v
annotate_all table v (l ∷ ls) = annotate_all table (annotate_lock table v l) ls

-- The table is given by its name. Without a view or a snapshot the code does nothing.
unfoldable pub annotate : TableView → Bytes → LockSnapshot → TableView
annotate v table snap = annotate_all table (clear_view v) snap.locks
