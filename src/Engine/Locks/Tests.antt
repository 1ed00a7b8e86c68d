-- ===== src/Engine/Locks/Tests.antt =====
-- Snapshots and their sentences at concrete inputs.
use deadlocker.Base.{
  ℕ, ◌≡◌, refl, true, none, List, [], ◌∷◌, Bytes, bytes_eq, has_prefix, str, to_upper, trim_space,
  trim_left_from, trim_right, all_space, space_width, map_get, or_default,
}
use deadlocker.Engine.Data.Key.{equal_fold}
use deadlocker.Engine.Locks.{contains_id, is_blank, names_blocker, blocked_by, blocked_by_from}
use deadlocker.Engine.Locks.Blockers.{distinct}
use deadlocker.Engine.Locks.Explain.{
  explain_lock_mode, explain_mdl, record_sentence, table_sentence, mode_parts, is_flagged,
  quote_data,
}
use deadlocker.Engine.Locks.Snapshot.{
  LockRow, WaitRow, Answer, answered, take_snapshot, add_waits, waits_of, wait_of, actor_of,
}
use deadlocker.Engine.Locks.Named.{waits_for, seen_waits, take_snapshot-blocked_by}

abbrev gap_row : LockRow
gap_row = record {
  connection = 12;
  table = str "t";
  index = str "PRIMARY";
  lock_type = str "RECORD";
  lock_mode = str "X,GAP,INSERT_INTENTION";
  lock_status = str "WAITING";
  lock_data = str " 5";
  lock_id = str "L1";
}

-- Connection 12 waits for connection 11, and another run's connection for a third.
abbrev wait_rows : List WaitRow
wait_rows =
    record {
      waiting_thread = 12;
      blocking_thread = 11;
      waiting_lock_id = str "L1";
      blocking_lock_id = str "L2";
    }
    ∷ record {
      waiting_thread = 30;
      blocking_thread = 31;
      waiting_lock_id = str "L3";
      blocking_lock_id = str "L4";
    }
    ∷ []

abbrev run_actors : List (ℕ × Bytes)
run_actors = (11, str "b") ∷ (12, str "a") ∷ []

abbrev lock_answer : Answer LockRow
lock_answer = answered (gap_row ∷ []) none

abbrev wait_answer : Answer WaitRow
wait_answer = answered wait_rows none

a_waits_for_b :
    blocked_by (take_snapshot run_actors lock_answer wait_answer).snapshot (str "a") ≡ str "b" ∷ []
unfolding blocked_by blocked_by_from contains_id names_blocker is_blank take_snapshot add_waits
    waits_of wait_of actor_of str map_get or_default bytes_eq
a_waits_for_b = refl

take_snapshot-blocked_by_example :
    (contains_id
        (blocked_by (take_snapshot run_actors lock_answer wait_answer).snapshot (str "a"))
        (str "b")
      ≡ waits_for run_actors (str "a") (str "b") (seen_waits lock_answer wait_answer))
    × (distinct (blocked_by (take_snapshot run_actors lock_answer wait_answer).snapshot (str "a"))
        ≡ true)
take_snapshot-blocked_by_example =
    take_snapshot-blocked_by run_actors lock_answer wait_answer (str "a") (str "b")

insert_intention_wins :
    has_prefix
      (explain_lock_mode (str "RECORD") (str "X,GAP,INSERT_INTENTION") (str "5"))
      (str "Insert intention lock: this transaction wants to insert into the gap before key 5.")
    ≡ true
unfolding explain_lock_mode record_sentence mode_parts is_flagged quote_data has_prefix trim_space
    trim_left_from trim_right all_space space_width str bytes_eq to_upper equal_fold
insert_intention_wins = refl

record_is_no_gap :
    has_prefix
      (explain_lock_mode (str "RECORD") (str "s,rec_not_gap") (str " 7"))
      (str "Record lock (shared): locks only the index record key 7,")
    ≡ true
unfolding explain_lock_mode record_sentence mode_parts is_flagged quote_data has_prefix trim_space
    trim_left_from trim_right all_space space_width str bytes_eq to_upper equal_fold
record_is_no_gap = refl

table_mode : explain_lock_mode (str "table") (str "AUTO_INC") [] ≡ str "Table-level AUTO_INC lock."
unfolding explain_lock_mode table_sentence str bytes_eq to_upper equal_fold
table_mode = refl

pending_metadata :
    has_prefix
      (explain_mdl (str "EXCLUSIVE") (str "Pending"))
      (str "Waiting for this metadata lock.")
    ≡ true
unfolding explain_mdl has_prefix str bytes_eq to_upper equal_fold
pending_metadata = refl
