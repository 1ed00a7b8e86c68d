-- ===== src/Engine/Console.antt =====
-- Statements typed at a run, and the standalone sessions they may use (engine/console.go). As in
-- Engine/Run, a function is the part of a method between taking and releasing the run's lock. A
-- session's connection is reached through a pointer, so an entry knows in which map it was found.
pub mod Trimmed
use deadlocker.Base.{
  ℕ, zero, suc, String, ◌+◌, ◌-◌, ◌%◌, ◌==◌, leb, Bool, true, false, not, Option, none, some, List,
  [], ◌∷◌, ◌++◌, Bytes, length, get_or, str, decimal, trim_space, if◌then◌else◌,
}
use deadlocker.Engine.Types.{
  step_running, step_blocked, step_done, step_failed, RunStatus, preparing, SqlError, PlanRow,
  StmtResult, Session, LockSnapshot, ConsoleEntry, Run, Notice, console_notice, locks_notice,
  state_notice,
}
use deadlocker.Engine.Outcome.{track_transaction, no_error}
use deadlocker.Engine.Sessions.{find_session, modify_session, remove_session}
use deadlocker.Engine.Locks.{blocked_by, wait_for, describe_option, is_blank}

abbrev pub max_console_sessions : ℕ
max_console_sessions = 8

abbrev pub console_accents : List String
console_accents = "violet" ∷ "rose" ∷ "teal" ∷ "amber" ∷ "blue" ∷ []

pub data ConsoleError : Type 0 where
  nothing_to_run run_closed starting_up : ConsoleError
  too_many_sessions : ConsoleError
  unknown_session : Bytes → ConsoleError
  not_connected : Bytes → ConsoleError
  session_busy : Bytes → Bytes → ℕ → ConsoleError

-- `OpenSession`, up to the dial: the new session is numbered, and not yet among the sessions.
pub data Opening : Type 0 where
  not_opened : ConsoleError → Opening
  opening : Run → Session → Opening

-- `has_box` is `r.box != nil`.
unfoldable pub open_session : Run → Bool → Opening
open_session r has_box =
    let n = r.console_seq + 1 in
    if r.is_closed
    then not_opened run_closed
    else if not has_box
    then not_opened starting_up
    else if leb max_console_sessions (length r.consoles)
    then not_opened too_many_sessions
    else opening (record r { console_seq = n })
        (record {
          id = str "console" ++ decimal n;
          name = str "Console " ++ decimal n;
          accent = str (get_or console_accents ((n - 1) % 5) "");
          standalone = true;
          connected = false;
          conn_id = 0;
          busy = false;
          in_trx = false;
          step_index = 0;
          console_id = 0;
        })

-- `OpenSession`, when the dial has succeeded with this connection id.
unfoldable pub session_opened : Run → Session → ℕ → Run
session_opened r s conn_id = record r {
  consoles = r.consoles ++ (record s { connected = true; conn_id = conn_id } ∷ []);
}

-- `CloseSession`, its state.
unfoldable pub close_session : Run → Bytes → Option Run
close_session r id = elim (find_session r.consoles id) [
  | none ↦ none
  | some s ↦ some (record r { consoles = remove_session r.consoles id })
]

-- `trimStatement`: white space and semicolons at the end go. A round drops a byte at least.
unfoldable pub drop_semicolon : Bytes → Option Bytes
drop_semicolon [] = none
drop_semicolon (c ∷ []) = if c == b';' then some [] else none
drop_semicolon (c ∷ d ∷ r) = elim (drop_semicolon (d ∷ r)) [ none ↦ none | some s ↦ some (c ∷ s) ]

unfoldable pub trim_rounds : ℕ → Bytes → Bytes
trim_rounds zero s = s
trim_rounds (suc fuel) s = elim (drop_semicolon s) [
  | none ↦ s
  | some t ↦ trim_rounds fuel (trim_space t)
]

unfoldable pub trim_statement : Bytes → Bytes
trim_statement s = let t = trim_space s in trim_rounds (length t) t

unfoldable pub occupy_by_console : ℕ → Session → Session
occupy_by_console id s = record s { busy = true; console_id = id }

unfoldable pub release_console : Bytes → Option SqlError → Session → Session
release_console sql error s = record s {
  busy = false;
  console_id = 0;
  in_trx = track_transaction s.in_trx sql error;
}

-- A change of the session that an entry runs on; `among_actors` is where it was found.
unfoldable pub modify_entry_session : Bool → (Session → Session) → Run → Bytes → Run
modify_entry_session true f r id = record r { actors = modify_session f r.actors id }
modify_entry_session false f r id = record r { consoles = modify_session f r.consoles id }

unfoldable pub new_entry : ℕ → Session → Bytes → ℕ → ConsoleEntry
new_entry id s sql now = record {
  id = id;
  session = s.id;
  name = s.name;
  accent = s.accent;
  standalone = s.standalone;
  sql = sql;
  status = step_running;
  submitted_at = some now;
  ended_at = none;
  duration_ms = 0;
  columns = [];
  rows = [];
  rows_truncated = false;
  row_count = 0;
  rows_affected = 0;
  last_insert_id = 0;
  error = none;
  blocked_by = [];
  wait_explain = [];
  was_blocked = false;
  plan = [];
}

-- `typed r entry among_actors notices`: the statement was accepted, and its execution starts.
pub data Typed : Type 0 where
  rejected : ConsoleError → Typed
  typed : Run → ConsoleEntry → Bool → List Notice → Typed

unfoldable pub submit_entry : Run → Bytes → Bytes → ℕ → Bool → Session → Typed
submit_entry r id sql now among_actors s =
    let n = r.entry_seq + 1 in
    let entry = new_entry n s sql now in
    if not s.connected
    then rejected (not_connected s.name)
    else if s.busy
    then rejected (session_busy id s.name s.step_index)
    else typed
        (modify_entry_session among_actors (occupy_by_console n) (record r { entry_seq = n }) s.id)
        entry among_actors (console_notice entry ∷ state_notice ∷ [])

-- `sessionLocked`: the actors first, then the console sessions.
unfoldable pub submit_on : Run → Bytes → Bytes → ℕ → Option Session → Option Session → Typed
submit_on r id sql now (some a) c = submit_entry r id sql now true a
submit_on r id sql now none (some c) = submit_entry r id sql now false c
submit_on r id sql now none none = rejected (unknown_session id)

unfoldable pub is_preparing : RunStatus → Bool
is_preparing preparing = true
is_preparing _ = false

-- `Console`, up to the start of the execution.
unfoldable pub begin_console : Run → Bytes → Bytes → ℕ → Typed
begin_console r id text now =
    let sql = trim_statement text in
    if is_blank sql
    then rejected nothing_to_run
    else if r.is_closed
    then rejected run_closed
    else if is_preparing r.status
    then rejected starting_up
    else submit_on r id sql now (find_session r.actors id) (find_session r.consoles id)

-- `Console`, after the settle window.
unfoldable pub settle_console : ConsoleEntry → LockSnapshot → ConsoleEntry × List Notice
settle_console e snap =
    let settled : ConsoleEntry = elim e.status [
      | step_running ↦ record e {
        status = step_blocked;
        was_blocked = true;
        blocked_by = blocked_by snap e.session;
        wait_explain = describe_option (wait_for snap e.session) e.wait_explain;
      }
      | _ ↦ e
    ] in
    (settled, locks_notice snap ∷ console_notice settled ∷ state_notice ∷ [])

unfoldable pub completed_entry : ConsoleEntry → StmtResult → List PlanRow → ℕ → ℕ → ConsoleEntry
completed_entry e res plan end duration = record e {
  ended_at = some end;
  plan = plan;
  duration_ms = duration;
  columns = res.columns;
  rows = res.rows;
  row_count = res.row_count;
  rows_truncated = res.truncated;
  rows_affected = res.affected;
  last_insert_id = res.last_insert_id;
  status = if no_error res.error then step_done else step_failed;
  error = if no_error res.error then e.error else res.error;
}

-- `executeConsole`, when the statement has returned.
unfoldable pub complete_console :
    Run → ConsoleEntry → Bool → StmtResult → List PlanRow → ℕ → ℕ → Run × ConsoleEntry × List Notice
complete_console r e among_actors res plan end duration =
    let e' = completed_entry e res plan end duration in
    (
      modify_entry_session among_actors (release_console e.sql res.error) r e.session,
      e',
      console_notice e' ∷ [],
    )
