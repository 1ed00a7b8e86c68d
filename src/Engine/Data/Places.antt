-- ===== src/Engine/Data/Places.antt =====
-- Where the locks of a snapshot land in the view of a table (engine/data.go).
use deadlocker.Base.{
  ℕ, zero, suc, ◌+◌, ◌==◌, ◌≡◌, refl, ap, ◌∙◌, Bool, true, false, not, Option, none, some, List, [],
  ◌∷◌, ◌++◌, Bytes, if◌then◌else◌, arith,
}
use deadlocker.Engine.Types.{Lock}
use deadlocker.Engine.Data.Key.{equal_fold, names_supremum, split_lock_data}
use deadlocker.Engine.Data.{
  RowLock, DataRow, TableView, base_table, lock_kind, covers_record, covers_gap, is_table_lock,
  find_key, other_indexes, find_row, row_lock, add_to_row, add_at, annotate_lock,
}

-- The part of the view that a lock belongs to.
pub data Place : Type 0 where
  nowhere in_other_index above_all without_row : Place
  at_row : ℕ → Place

abbrev pub same_place : Place → Place → Bool
same_place nowhere nowhere = true
same_place in_other_index in_other_index = true
same_place above_all above_all = true
same_place without_row without_row = true
same_place (at_row i) (at_row j) = i == j
same_place _ _ = false

abbrev row_place : Option ℕ → Place
row_place none = without_row
row_place (some i) = at_row i

-- From the lock, the table's name, and the index and the keys of the view alone.
unfoldable pub place_of : Bytes → Bytes → List DataRow → Lock → Place
place_of table index rows l =
    if not (equal_fold (base_table l.table) table)
    then nowhere
    else if is_table_lock (lock_kind l)
    then nowhere
    else if other_indexes l.index index
    then in_other_index
    else if names_supremum l.lock_data
    then above_all
    else row_place (find_row rows l.index index l.lock_data)

-- The locks with a place, in the snapshot's order.
abbrev pub placed : Place → Bytes → Bytes → List DataRow → List Lock → List RowLock
placed p table index rows [] = []
placed p table index rows (l ∷ ls) =
    (if same_place (place_of table index rows l) p then row_lock table l ∷ [] else [])
    ++ placed p table index rows ls

abbrev pub on_record : List RowLock → List RowLock
on_record [] = []
on_record (rl ∷ rls) = (if covers_record rl.kind then rl ∷ [] else []) ++ on_record rls

abbrev pub on_gap : List RowLock → List RowLock
on_gap [] = []
on_gap (rl ∷ rls) = (if covers_gap rl.kind then rl ∷ [] else []) ++ on_gap rls

find_key-add_at :
    (i j : ℕ) (want : List Bytes) (rl : RowLock) (rows : List DataRow)
    → find_key i want (add_at j rl rows) ≡ find_key i want rows
unfolding find_key add_at add_to_row
find_key-add_at i j want rl [] = refl
find_key-add_at i zero want rl (r ∷ rows) = refl
find_key-add_at i (suc j) want rl (r ∷ rows) =
    ground (arith, find_key-add_at (i + 1) j want rl rows)

find_row-add_at :
    (j : ℕ) (rl : RowLock) (rows : List DataRow) (a b d : Bytes)
    → find_row (add_at j rl rows) a b d ≡ find_row rows a b d
unfolding find_row
find_row-add_at j rl rows a b d = rw (find_key-add_at 0 j (split_lock_data d) rl rows) refl

place_of-add_at :
    (table index : Bytes) (j : ℕ) (rl : RowLock) (rows : List DataRow) (l : Lock)
    → place_of table index (add_at j rl rows) l ≡ place_of table index rows l
unfolding place_of
place_of-add_at table index j rl rows l =
    rw (find_row-add_at j rl rows l.index index l.lock_data) refl

-- A lock at its place.
unfoldable pub put_at : Place → RowLock → TableView → TableView
put_at nowhere rl v = v
put_at in_other_index rl v = record v { other_index = v.other_index ++ (rl ∷ []) }
put_at above_all rl v = record v { supremum = v.supremum ++ (rl ∷ []) }
put_at without_row rl v = record v { unmatched = v.unmatched ++ (rl ∷ []) }
put_at (at_row i) rl v = record v { rows = add_at i rl v.rows }

pub annotate_lock-put_at :
    (table : Bytes) (v : TableView) (l : Lock)
    → annotate_lock table v l ≡ put_at (place_of table v.index v.rows l) (row_lock table l) v
unfolding annotate_lock put_at place_of row_lock
annotate_lock-put_at table v l = ground arith

pub place_of-put_at :
    (table : Bytes) (p : Place) (rl : RowLock) (v : TableView) (l : Lock)
    → place_of table (put_at p rl v).index (put_at p rl v).rows l ≡ place_of table v.index v.rows l
unfolding put_at
place_of-put_at table nowhere rl v l = refl
place_of-put_at table in_other_index rl v l = refl
place_of-put_at table above_all rl v l = refl
place_of-put_at table without_row rl v l = refl
place_of-put_at table (at_row i) rl v l = place_of-add_at table v.index i rl v.rows l

-- A lock moves no other lock's place.
place_of-annotate_lock :
    (table : Bytes) (v : TableView) (l l' : Lock)
    → let v' = annotate_lock table v l in
      place_of table v'.index v'.rows l' ≡ place_of table v.index v.rows l'
place_of-annotate_lock table v l l' =
    ap (λ w. place_of table w.index w.rows l') (annotate_lock-put_at table v l)
    ∙ place_of-put_at table (place_of table v.index v.rows l) (row_lock table l) v l'

pub placed-annotate_lock :
    (p : Place) (table : Bytes) (v : TableView) (l : Lock) (ls : List Lock)
    → let v' = annotate_lock table v l in
      placed p table v'.index v'.rows ls ≡ placed p table v.index v.rows ls
placed-annotate_lock p table v l [] = refl
placed-annotate_lock p table v l (l' ∷ ls) =
    rw (place_of-annotate_lock table v l l', placed-annotate_lock p table v l ls) refl
