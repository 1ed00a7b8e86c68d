-- ===== src/Engine/Data/Tests.antt =====
-- Lock data and a view of a table at concrete inputs.
use deadlocker.Base.{ℕ, ◌≡◌, refl, false, List, [], ◌∷◌, Bytes, get_elem?, has_prefix, str, join}
use deadlocker.Engine.Types.{Lock, LockSnapshot}
use deadlocker.Engine.Data.{DataRow, TableView, annotate}
use deadlocker.Engine.Data.Key.{contains_text, names_supremum, split_lock_data, to_lower}
use deadlocker.Engine.Data.Split.{lock_text, split_lock_data-lock_text}
use deadlocker.Engine.Data.Places.{
  in_other_index, above_all, without_row, at_row, placed, on_record, on_gap,
}
use deadlocker.Engine.Data.Annotated.{opt_map, annotate-places}

abbrev name : Bytes
name = str "O'Hara, J"

abbrev key : List Bytes
key = name ∷ str "x" ∷ []

key_unnamed : names_supremum (lock_text key) ≡ false
unfolding names_supremum contains_text to_lower has_prefix str join
key_unnamed = refl

split_lock_data-lock_text_example : split_lock_data (lock_text key) ≡ key
split_lock_data-lock_text_example = split_lock_data-lock_text name (str "x" ∷ []) key_unnamed

abbrev row : ℕ → DataRow
row n = record { values = []; nulls = []; key = (n ∷ []) ∷ []; locks = []; gap_locks = [] }

abbrev view : TableView
view = record {
  table = str "t";
  index = str "PRIMARY";
  columns = [];
  rows = row b'1' ∷ row b'2' ∷ [];
  supremum = [];
  unmatched = [];
  other_index = [];
}

abbrev lock_on : Bytes → Bytes → Lock
lock_on mode lock_data = record {
  actor = str "a";
  table = str "t";
  index = str "PRIMARY";
  lock_type = str "RECORD";
  lock_mode = mode;
  lock_status = str "GRANTED";
  lock_data = lock_data;
  lock_id = [];
  explain = [];
}

abbrev locks : LockSnapshot
locks = record {
  locks =
      lock_on (str "X") (str "2")
      ∷ lock_on (str "X,GAP") (str "2")
      ∷ lock_on (str "X") (str "supremum pseudo-record")
      ∷ [];
  waits = [];
}

annotate-places_example :
    ((annotate view (str "t") locks).other_index
      ≡ placed in_other_index (str "t") view.index view.rows locks.locks)
    × ((annotate view (str "t") locks).supremum
        ≡ placed above_all (str "t") view.index view.rows locks.locks)
    × ((annotate view (str "t") locks).unmatched
        ≡ placed without_row (str "t") view.index view.rows locks.locks)
    × (get_elem? (annotate view (str "t") locks).rows 1
        ≡ opt_map
            (λ r. record r {
              locks = on_record (placed (at_row 1) (str "t") view.index view.rows locks.locks);
              gap_locks = on_gap (placed (at_row 1) (str "t") view.index view.rows locks.locks);
            })
            (get_elem? view.rows 1))
annotate-places_example = annotate-places view (str "t") locks 1
