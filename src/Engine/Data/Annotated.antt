-- ===== src/Engine/Data/Annotated.antt =====
-- The annotated view of a table against the places of the locks (engine/data.go).
use deadlocker.Base.{
  ℕ, zero, suc, ◌+◌, ◌==◌, ◌≡◌, refl, sym, ap, ◌∙◌, Bool, false, Option, none, some, List, [], ◌∷◌,
  ◌++◌, append_assoc, append-nil, Bytes, get_elem?, if◌then◌else◌, arith,
}
use deadlocker.Engine.Types.{Lock, LockSnapshot}
use deadlocker.Engine.Data.Key.{split_lock_data}
use deadlocker.Engine.Data.{
  RowLock, DataRow, TableView, find_key, find_row, row_lock, clear_row, clear_rows, clear_view,
  add_to_row, add_at, annotate_lock, annotate_all, annotate,
}
use deadlocker.Engine.Data.Places.{
  Place, nowhere, in_other_index, above_all, without_row, at_row, same_place, place_of, placed,
  on_record, on_gap, put_at, annotate_lock-put_at, placed-annotate_lock,
}

abbrev here : Bool → RowLock → List RowLock
here b rl = if b then rl ∷ [] else []

-- A list of the view that takes the locks of one place.
annotate_all-placed :
    (list_of : TableView → List RowLock) (p : Place)
    → ((q : Place) (rl : RowLock) (v : TableView)
        → list_of (put_at q rl v) ≡ list_of v ++ here (same_place q p) rl)
    → (table : Bytes) (v : TableView) (ls : List Lock)
    → list_of (annotate_all table v ls) ≡ list_of v ++ placed p table v.index v.rows ls
unfolding annotate_all
annotate_all-placed list_of p step table v [] = sym (append-nil (list_of v))
annotate_all-placed list_of p step table v (l ∷ ls) =
    let q = place_of table v.index v.rows l in
    let rl = row_lock table l in
    let rest = placed p table v.index v.rows ls in
    annotate_all-placed list_of p step table (annotate_lock table v l) ls
    ∙ ap (λ t. list_of (annotate_lock table v l) ++ t) (placed-annotate_lock p table v l ls)
    ∙ ap (λ t. t ++ rest) (ap list_of (annotate_lock-put_at table v l) ∙ step q rl v)
    ∙ append_assoc (list_of v) (here (same_place q p) rl) rest

other_step :
    (q : Place) (rl : RowLock) (v : TableView)
    → (put_at q rl v).other_index ≡ v.other_index ++ here (same_place q in_other_index) rl
unfolding put_at
other_step nowhere rl v = sym (append-nil _)
other_step in_other_index rl v = refl
other_step above_all rl v = sym (append-nil _)
other_step without_row rl v = sym (append-nil _)
other_step (at_row i) rl v = sym (append-nil _)

supremum_step :
    (q : Place) (rl : RowLock) (v : TableView)
    → (put_at q rl v).supremum ≡ v.supremum ++ here (same_place q above_all) rl
unfolding put_at
supremum_step nowhere rl v = sym (append-nil _)
supremum_step in_other_index rl v = sym (append-nil _)
supremum_step above_all rl v = refl
supremum_step without_row rl v = sym (append-nil _)
supremum_step (at_row i) rl v = sym (append-nil _)

unmatched_step :
    (q : Place) (rl : RowLock) (v : TableView)
    → (put_at q rl v).unmatched ≡ v.unmatched ++ here (same_place q without_row) rl
unfolding put_at
unmatched_step nowhere rl v = sym (append-nil _)
unmatched_step in_other_index rl v = sym (append-nil _)
unmatched_step above_all rl v = sym (append-nil _)
unmatched_step without_row rl v = refl
unmatched_step (at_row i) rl v = sym (append-nil _)

abbrev pub opt_map : (DataRow → DataRow) → Option DataRow → Option DataRow
opt_map f none = none
opt_map f (some r) = some (f r)

-- A row with more locks.
abbrev pub with_locks : List RowLock → DataRow → DataRow
with_locks rls r = record r {
  locks = r.locks ++ on_record rls;
  gap_locks = r.gap_locks ++ on_gap rls;
}

on_record-append : (xs ys : List RowLock) → on_record (xs ++ ys) ≡ on_record xs ++ on_record ys
on_record-append [] ys = refl
on_record-append (x ∷ xs) ys = ground (arith, on_record-append xs ys)

on_gap-append : (xs ys : List RowLock) → on_gap (xs ++ ys) ≡ on_gap xs ++ on_gap ys
on_gap-append [] ys = refl
on_gap-append (x ∷ xs) ys = ground (arith, on_gap-append xs ys)

with_locks-append :
    (xs ys : List RowLock) (o : Option DataRow)
    → opt_map (with_locks ys) (opt_map (with_locks xs) o) ≡ opt_map (with_locks (xs ++ ys)) o
with_locks-append xs ys none = refl
with_locks-append xs ys (some r) = ground (
  arith,
  on_record-append xs ys,
  on_gap-append xs ys,
  append_assoc r.locks (on_record xs) (on_record ys),
  append_assoc r.gap_locks (on_gap xs) (on_gap ys),
)

with_locks-none : (o : Option DataRow) → opt_map (with_locks []) o ≡ o
with_locks-none none = refl
with_locks-none (some r) = ground (arith, append-nil r.locks, append-nil r.gap_locks)

suc_eq : (i j : ℕ) → (suc i == suc j) ≡ (i == j)
suc_eq i j = ground arith

zero_eq : (j : ℕ) → (zero == suc j) ≡ false
zero_eq j = ground arith

eq_zero : (i : ℕ) → (suc i == zero) ≡ false
eq_zero i = ground arith

row_step_at :
    (i j : ℕ) (rl : RowLock) (rows : List DataRow)
    → get_elem? (add_at i rl rows) j ≡ opt_map (with_locks (here (i == j) rl)) (get_elem? rows j)
unfolding add_at add_to_row
row_step_at i j rl [] = refl
row_step_at zero zero rl (r ∷ rows) = ground (arith, append-nil r.locks, append-nil r.gap_locks)
row_step_at zero (suc j) rl (r ∷ rows) =
    sym (with_locks-none (get_elem? rows j))
    ∙ ap (λ b. opt_map (with_locks (here b rl)) (get_elem? rows j)) (sym (zero_eq j))
row_step_at (suc i) zero rl (r ∷ rows) =
    sym (with_locks-none (some r))
    ∙ ap (λ b. opt_map (with_locks (here b rl)) (some r)) (sym (eq_zero i))
row_step_at (suc i) (suc j) rl (r ∷ rows) =
    row_step_at i j rl rows
    ∙ ap (λ b. opt_map (with_locks (here b rl)) (get_elem? rows j)) (sym (suc_eq i j))

row_step :
    (q : Place) (rl : RowLock) (v : TableView) (j : ℕ)
    → get_elem? (put_at q rl v).rows j
      ≡ opt_map (with_locks (here (same_place q (at_row j)) rl)) (get_elem? v.rows j)
unfolding put_at
row_step nowhere rl v j = sym (with_locks-none (get_elem? v.rows j))
row_step in_other_index rl v j = sym (with_locks-none (get_elem? v.rows j))
row_step above_all rl v j = sym (with_locks-none (get_elem? v.rows j))
row_step without_row rl v j = sym (with_locks-none (get_elem? v.rows j))
row_step (at_row i) rl v j = row_step_at i j rl v.rows

annotate_all-rows :
    (table : Bytes) (v : TableView) (ls : List Lock) (j : ℕ)
    → get_elem? (annotate_all table v ls).rows j
      ≡ opt_map (with_locks (placed (at_row j) table v.index v.rows ls)) (get_elem? v.rows j)
unfolding annotate_all
annotate_all-rows table v [] j = sym (with_locks-none (get_elem? v.rows j))
annotate_all-rows table v (l ∷ ls) j =
    let q = place_of table v.index v.rows l in
    let rl = row_lock table l in
    let rest = placed (at_row j) table v.index v.rows ls in
    annotate_all-rows table (annotate_lock table v l) ls j
    ∙ ap (λ t. opt_map (with_locks t) (get_elem? (annotate_lock table v l).rows j))
        (placed-annotate_lock (at_row j) table v l ls)
    ∙ ap (opt_map (with_locks rest))
        (ap (λ w. get_elem? w.rows j) (annotate_lock-put_at table v l) ∙ row_step q rl v j)
    ∙ with_locks-append (here (same_place q (at_row j)) rl) rest (get_elem? v.rows j)

find_key-clear :
    (i : ℕ) (want : List Bytes) (rows : List DataRow)
    → find_key i want (clear_rows rows) ≡ find_key i want rows
unfolding find_key clear_rows clear_row
find_key-clear i want [] = refl
find_key-clear i want (r ∷ rows) = ground (arith, find_key-clear (i + 1) want rows)

place_of-clear :
    (table index : Bytes) (rows : List DataRow) (l : Lock)
    → place_of table index (clear_rows rows) l ≡ place_of table index rows l
unfolding place_of find_row
place_of-clear table index rows l = rw (find_key-clear 0 (split_lock_data l.lock_data) rows) refl

placed-clear :
    (p : Place) (table index : Bytes) (rows : List DataRow) (ls : List Lock)
    → placed p table index (clear_rows rows) ls ≡ placed p table index rows ls
placed-clear p table index rows [] = refl
placed-clear p table index rows (l ∷ ls) =
    rw (place_of-clear table index rows l, placed-clear p table index rows ls) refl

rows-clear :
    (rows : List DataRow) (j : ℕ)
    → get_elem? (clear_rows rows) j ≡ opt_map clear_row (get_elem? rows j)
unfolding clear_rows
rows-clear [] j = refl
rows-clear (r ∷ rows) zero = refl
rows-clear (r ∷ rows) (suc j) = rows-clear rows j

clear-locks :
    (rls : List RowLock) (o : Option DataRow)
    → opt_map (with_locks rls) (opt_map clear_row o)
      ≡ opt_map (λ r. record r { locks = on_record rls; gap_locks = on_gap rls }) o
unfolding clear_row
clear-locks rls none = refl
clear-locks rls (some r) = refl

-- Annotating a view leaves nothing of older locks, moves no row and loses no lock: each list has
-- exactly the snapshot's locks whose place it is, in the snapshot's order. The place of a lock, which its
-- own data, the table's name and the view's index and keys decide, is no list, the list of other indexes,
-- the supremum, the list of unmatched locks, or one row; that row then has the lock among those on its
-- record, among those on the gap before it, or among both, as the lock's kind says.
pub annotate-places :
    (v : TableView) (table : Bytes) (snap : LockSnapshot) (i : ℕ)
    → let v' = annotate v table snap in
      let at = λ (p : Place). placed p table v.index v.rows snap.locks in
      (v'.other_index ≡ at in_other_index)
      × (v'.supremum ≡ at above_all)
      × (v'.unmatched ≡ at without_row)
      × (get_elem? v'.rows i
          ≡ opt_map
              (λ r. record r {
                locks = on_record (at (at_row i));
                gap_locks = on_gap (at (at_row i));
              })
              (get_elem? v.rows i))
unfolding annotate clear_view
annotate-places v table snap i =
    let w = clear_view v in
    let same = λ (p : Place). placed-clear p table v.index v.rows snap.locks in
    (
      annotate_all-placed (λ u. u.other_index) in_other_index other_step table w snap.locks
          ∙ same in_other_index,
      annotate_all-placed (λ u. u.supremum) above_all supremum_step table w snap.locks
          ∙ same above_all,
      annotate_all-placed (λ u. u.unmatched) without_row unmatched_step table w snap.locks
          ∙ same without_row,
      annotate_all-rows table w snap.locks i
          ∙ ap
              (opt_map
                (with_locks (placed (at_row i) table v.index (clear_rows v.rows) snap.locks)))
              (rows-clear v.rows i)
          ∙ clear-locks _ (get_elem? v.rows i)
          ∙ ap
              (λ t.
                opt_map (λ r. record r { locks = on_record t; gap_locks = on_gap t })
                  (get_elem? v.rows i))
              (same (at_row i)),
    )
