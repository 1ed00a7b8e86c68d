-- ===== src/Engine/Types.antt =====
-- The state of a run and of its steps (engine/run.go, engine/inspect.go).
use deadlocker.Base.{ℕ, Bool, Option, List, Bytes}
use deadlocker.Casedef.Types.{Expectation}

pub data StepStatus : Type 0 where
  step_pending step_running step_blocked step_done step_failed : StepStatus

pub data RunStatus : Type 0 where
  preparing ready running finished failed closed : RunStatus

pub data ErrorKind : Type 0 where
  deadlock timeout other : ErrorKind

pub record SqlError : Type 0 where
  pub code : ℕ
  pub sql_state : Bytes
  pub message : Bytes
  pub kind : ErrorKind
  pub hint : Bytes

-- `match`, `mismatch`, or nothing.
pub data Verdict : Type 0 where
  no_verdict matched mismatched : Verdict

pub record PlanRow : Type 0 where
  pub id : ℕ
  pub select_type : Bytes
  pub table : Bytes
  pub access : Bytes
  pub possible_keys : Bytes
  pub key : Bytes
  pub key_len : Bytes
  pub ref : Bytes
  pub rows : ℕ
  pub filtered : Bytes
  pub extra : Bytes
  pub explain : Bytes

pub record StepResult : Type 0 where
  pub index : ℕ
  pub actor : Bytes
  pub actor_name : Bytes
  pub accent : Bytes
  pub label : Bytes
  pub sql : Bytes
  pub note : Bytes
  pub status : StepStatus
  pub submitted_at : Option ℕ
  pub ended_at : Option ℕ
  pub duration_ms : ℕ
  pub columns : List Bytes
  pub rows : List (List Bytes)
  pub rows_truncated : Bool
  pub row_count : ℕ
  pub rows_affected : ℕ
  pub last_insert_id : ℕ
  pub error : Option SqlError
  pub blocked_by : List Bytes
  pub wait_explain : Bytes
  pub was_blocked : Bool
  pub plan : List PlanRow
  pub expect : Expectation
  pub actual : Expectation
  pub verdict : Verdict
  pub verdict_note : Bytes

-- What executing a statement gives (`stmtResult`).
pub record StmtResult : Type 0 where
  pub columns : List Bytes
  pub rows : List (List Bytes)
  pub row_count : ℕ
  pub truncated : Bool
  pub affected : ℕ
  pub last_insert_id : ℕ
  pub error : Option SqlError

-- `actorConn`: an actor's connection, or that of a console session. `connected` is `conn != nil`.
pub record Session : Type 0 where
  pub id : Bytes
  pub name : Bytes
  pub accent : Bytes
  pub standalone : Bool
  pub connected : Bool
  pub conn_id : ℕ
  pub busy : Bool
  pub in_trx : Bool
  pub step_index : ℕ
  pub console_id : ℕ

pub record Lock : Type 0 where
  pub actor : Bytes
  pub table : Bytes
  pub index : Bytes
  pub lock_type : Bytes
  pub lock_mode : Bytes
  pub lock_status : Bytes
  pub lock_data : Bytes
  pub lock_id : Bytes
  pub explain : Bytes

pub record LockWait : Type 0 where
  pub waiting_actor : Bytes
  pub blocking_actor : Bytes
  pub waiting_lock_id : Bytes
  pub blocking_lock_id : Bytes
  pub waiting_lock : Option Lock
  pub blocking_lock : Option Lock

-- The lists of transactions and of metadata locks, which are only shown, are left out.
pub record LockSnapshot : Type 0 where
  pub locks : List Lock
  pub waits : List LockWait

-- A statement typed into the console.
pub record ConsoleEntry : Type 0 where
  pub id : ℕ
  pub session : Bytes
  pub name : Bytes
  pub accent : Bytes
  pub standalone : Bool
  pub sql : Bytes
  pub status : StepStatus
  pub submitted_at : Option ℕ
  pub ended_at : Option ℕ
  pub duration_ms : ℕ
  pub columns : List Bytes
  pub rows : List (List Bytes)
  pub rows_truncated : Bool
  pub row_count : ℕ
  pub rows_affected : ℕ
  pub last_insert_id : ℕ
  pub error : Option SqlError
  pub blocked_by : List Bytes
  pub wait_explain : Bytes
  pub was_blocked : Bool
  pub plan : List PlanRow

-- `actors` is in the order of `actorOrder`, and `consoles` in that of `consoleOrder`. `ready_closed`
-- is whether the channel `ready` is closed. The handles (the box, the databases, the bus, the contexts)
-- and what only describes a run (its id, its case, its start, the progress of its preparation) are
-- left out.
pub record Run : Type 0 where
  pub status : RunStatus
  pub message : Bytes
  pub run_error : Bytes
  pub cursor : ℕ
  pub steps : List StepResult
  pub actors : List Session
  pub consoles : List Session
  pub console_seq : ℕ
  pub entry_seq : ℕ
  pub deadlock_report : Bytes
  pub is_closed : Bool
  pub ready_closed : Bool
  pub setup_error : Option Bytes
  pub last_locks : Option LockSnapshot
  pub interrupt : Bytes

-- What is published on the run's bus after a state change.
pub data Notice : Type 0 where
  step_notice : StepResult → Notice
  console_notice : ConsoleEntry → Notice
  locks_notice : LockSnapshot → Notice
  state_notice : Notice
  log_notice : Bytes → Bytes → Notice
