-- ===== src/Engine/Locks/Snapshot.antt =====
-- How a snapshot is made of the rows that MySQL answers with (engine/inspect.go, `Snapshot`). The
-- queries are not modelled: their answers are given.
use deadlocker.Base.{
  ℕ, ◌&&◌, Option, none, some, List, [], ◌∷◌, ◌++◌, Bytes, bytes_eq, map_get, or_default, str,
  if◌then◌else◌,
}
use deadlocker.Engine.Types.{Lock, LockWait, LockSnapshot}
use deadlocker.Engine.Locks.{is_blank}
use deadlocker.Engine.Locks.Explain.{explain_lock_mode}

pub record LockRow : Type 0 where
  pub connection : ℕ
  pub table : Bytes
  pub index : Bytes
  pub lock_type : Bytes
  pub lock_mode : Bytes
  pub lock_status : Bytes
  pub lock_data : Bytes
  pub lock_id : Bytes

pub record WaitRow : Type 0 where
  pub waiting_thread : ℕ
  pub blocking_thread : ℕ
  pub waiting_lock_id : Bytes
  pub blocking_lock_id : Bytes

-- A query that failed, or the rows that were scanned, with the error that ended them early.
pub data Answer {ℓ} (A : Type ℓ) : Type ℓ where
  query_failed : Bytes → Answer A
  answered : List A → Option Bytes → Answer A

pub record Taken : Type 0 where
  pub snapshot : LockSnapshot
  pub err : Bytes

unfoldable pub actor_of : List (ℕ × Bytes) → ℕ → Bytes
actor_of actors connection = or_default [] (map_get actors connection)

unfoldable pub lock_of : List (ℕ × Bytes) → LockRow → Lock
lock_of actors r = record {
  actor = actor_of actors r.connection;
  table = r.table;
  index = r.index;
  lock_type = r.lock_type;
  lock_mode = r.lock_mode;
  lock_status = r.lock_status;
  lock_data = r.lock_data;
  lock_id = r.lock_id;
  explain = explain_lock_mode r.lock_type r.lock_mode r.lock_data;
}

unfoldable pub locks_of : List (ℕ × Bytes) → List LockRow → List Lock
locks_of actors [] = []
locks_of actors (r ∷ rows) = lock_of actors r ∷ locks_of actors rows

unfoldable pub last_of {ℓ} : {A : Type ℓ} → Option A → Option A → Option A
last_of (some k) first = some k
last_of none first = first

-- `byLockID`: of locks with the same id, the last.
unfoldable pub by_lock_id : List Lock → Bytes → Option Lock
by_lock_id [] id = none
by_lock_id (l ∷ ls) id = last_of (by_lock_id ls id) (if bytes_eq l.lock_id id then some l else none)

unfoldable pub wait_of : List (ℕ × Bytes) → List Lock → WaitRow → LockWait
wait_of actors locks r = record {
  waiting_actor = actor_of actors r.waiting_thread;
  blocking_actor = actor_of actors r.blocking_thread;
  waiting_lock_id = r.waiting_lock_id;
  blocking_lock_id = r.blocking_lock_id;
  waiting_lock = by_lock_id locks r.waiting_lock_id;
  blocking_lock = by_lock_id locks r.blocking_lock_id;
}

unfoldable pub waits_of : List (ℕ × Bytes) → List Lock → List WaitRow → List LockWait
waits_of actors locks [] = []
waits_of actors locks (r ∷ rows) =
    let w = wait_of actors locks r in
    let rest = waits_of actors locks rows in
    if is_blank w.waiting_actor && is_blank w.blocking_actor then rest else w ∷ rest

-- The error of a scan, if there was one.
unfoldable pub scan_error : Option Bytes → Bytes
scan_error none = []
scan_error (some e) = str "scan data_locks: " ++ e

unfoldable pub add_waits : List (ℕ × Bytes) → List Lock → Bytes → Answer WaitRow → Taken
add_waits actors locks err (query_failed e) = record {
  snapshot = record { locks = locks; waits = [] };
  err = if is_blank err then str "data_lock_waits: " ++ e else err;
}
add_waits actors locks err (answered rows ended) = record {
  snapshot = record { locks = locks; waits = waits_of actors locks rows };
  err = err;
}

unfoldable pub take_snapshot : List (ℕ × Bytes) → Answer LockRow → Answer WaitRow → Taken
take_snapshot actors (query_failed e) waits = record {
  snapshot = record { locks = []; waits = [] };
  err = str "data_locks: " ++ e;
}
take_snapshot actors (answered rows ended) waits =
    add_waits actors (locks_of actors rows) (scan_error ended) waits
