-- ===== src/Engine/Run.antt =====
-- The operations of a run (engine/run.go, engine/console.go). Each function is the part of a method
-- between taking and releasing the run's lock, so a method that lets the lock go and takes it again
-- is several of them; what it publishes in between is its list of notices.
pub mod Invariant
pub mod Preserved
pub mod Reach
pub mod Finished
pub mod Known
use deadlocker.Base.{
  ℕ, suc, ◌+◌, ◌-◌, ◌%◌, ◌==◌, leb, ltb, Bool, true, false, not, ◌&&◌, ◌||◌, Option, none, some,
  List, [], ◌∷◌, ◌++◌, Bytes, length, get_elem?, get_or, set, str, decimal, bytes_eq, if◌then◌else◌,
  map,
}
use deadlocker.Casedef.Types.{expect_any, Case, Actor, Step}
use deadlocker.Engine.Types.{
  StepStatus, step_pending, step_running, step_blocked, step_done, step_failed, RunStatus,
  preparing, ready, running, finished, failed, closed, SqlError, no_verdict, PlanRow, StepResult,
  StmtResult, Session, LockSnapshot, ConsoleEntry, Run, Notice, step_notice, console_notice,
  locks_notice, state_notice, log_notice,
}
use deadlocker.Engine.Outcome.{evaluate, track_transaction, no_error, is_deadlock}
use deadlocker.Engine.Sessions.{find_session, modify_session, remove_session, any_busy}
use deadlocker.Engine.Locks.{blocked_by, wait_for, describe_option, is_blank}

-- `New`: the actor of a step by its id, or the zero value.
unfoldable pub case_actor : List Actor → Bytes → Actor
case_actor [] id = record { id = []; name = []; accent = [] }
case_actor (a ∷ rest) id = if bytes_eq a.id id then a else case_actor rest id

unfoldable pub new_step : List Actor → ℕ → Step → StepResult
new_step actors i st = record {
  index = i + 1;
  actor = st.actor;
  actor_name = (case_actor actors st.actor).name;
  accent = (case_actor actors st.actor).accent;
  label = st.label;
  sql = st.sql;
  note = st.note;
  status = step_pending;
  submitted_at = none;
  ended_at = none;
  duration_ms = 0;
  columns = [];
  rows = [];
  rows_truncated = false;
  row_count = 0;
  rows_affected = 0;
  last_insert_id = 0;
  error = none;
  blocked_by = [];
  wait_explain = [];
  was_blocked = false;
  plan = [];
  expect = st.expect;
  actual = expect_any;
  verdict = no_verdict;
  verdict_note = [];
}

unfoldable pub new_steps : List Actor → ℕ → List Step → List StepResult
new_steps actors i [] = []
new_steps actors i (st ∷ sts) = new_step actors i st ∷ new_steps actors (i + 1) sts

unfoldable pub new_session : Actor → Session
new_session a = record {
  id = a.id;
  name = a.name;
  accent = a.accent;
  standalone = false;
  connected = false;
  conn_id = 0;
  busy = false;
  in_trx = false;
  step_index = 0;
  console_id = 0;
}

unfoldable pub new_run : Case → Run
new_run c = record {
  status = preparing;
  message = [];
  run_error = [];
  cursor = 0;
  steps = new_steps c.actors 0 c.steps;
  actors = map new_session c.actors;
  consoles = [];
  console_seq = 0;
  entry_seq = 0;
  deadlock_report = [];
  is_closed = false;
  ready_closed = false;
  setup_error = none;
  last_locks = none;
  interrupt = [];
}

-- `Setup`, when `setup` has returned its error or none.
unfoldable pub setup_done : Run → Option Bytes → Run
setup_done r (some text) = record r {
  setup_error = some text;
  status = failed;
  run_error = text;
  ready_closed = true;
}
setup_done r none = record r {
  setup_error = none;
  status = ready;
  message = str "ready " ++ 0xe2 ∷ 0x80 ∷ 0x94 ∷ str " step through the scenario";
  ready_closed = true;
}

-- Why `Step` refuses.
pub data StepError : Type 0 where
  run_closed no_more_steps : StepError
  not_ready : RunStatus → StepError
  unknown_actor : ℕ → Bytes → StepError
  actor_blocked : Bytes → Bytes → ℕ → StepError

-- `begun r idx notices`: step `idx` was submitted, and its execution starts.
pub data Begun : Type 0 where
  refused : StepError → Begun
  begun : Run → ℕ → List Notice → Begun

unfoldable pub submitted : StepResult → ℕ → StepResult
submitted st now = record st {
  status = step_running;
  submitted_at = some now;
  ended_at = none;
  error = none;
  blocked_by = [];
  wait_explain = [];
  verdict = no_verdict;
  actual = expect_any;
}

unfoldable pub occupy : ℕ → Session → Session
occupy idx a = record a { busy = true; step_index = idx + 1 }

-- The step is there and its actor is free.
unfoldable pub submit : Run → ℕ → StepResult → ℕ → Begun
submit r idx st now =
    begun
      (record r {
        cursor = r.cursor + 1;
        steps = set r.steps idx (submitted st now);
        actors = modify_session (occupy idx) r.actors st.actor;
        status = running;
        message = [];
      })
      idx (step_notice (submitted st now) ∷ state_notice ∷ [])

unfoldable pub submit_if_free : Run → ℕ → StepResult → ℕ → Option Session → Begun
submit_if_free r idx st now none = refused (unknown_actor (idx + 1) st.actor)
submit_if_free r idx st now (some a) =
    if a.busy then refused (actor_blocked st.actor a.name a.step_index) else submit r idx st now

unfoldable pub submit_at_cursor : Run → ℕ → Option StepResult → Begun
submit_at_cursor r now none = refused no_more_steps
submit_at_cursor r now (some st) = submit_if_free r r.cursor st now (find_session r.actors st.actor)

unfoldable pub not_started : RunStatus → Bool
not_started preparing = true
not_started failed = true
not_started _ = false

-- `Step`, up to the start of the execution.
unfoldable pub begin_step : Run → ℕ → Begun
begin_step r now =
    if r.is_closed
    then refused run_closed
    else if not_started r.status
    then refused (not_ready r.status)
    else submit_at_cursor r now (get_elem? r.steps r.cursor)

-- `Step`, after the settle window: a step that still runs is blocked.
unfoldable pub blocked : StepResult → LockSnapshot → StepResult
blocked st snap = evaluate (record st {
  status = step_blocked;
  was_blocked = true;
  blocked_by = blocked_by snap st.actor;
  wait_explain = describe_option (wait_for snap st.actor) st.wait_explain;
})

unfoldable pub settled : StepResult → LockSnapshot → StepResult
settled st snap = elim st.status [ step_running ↦ blocked st snap | _ ↦ st ]

unfoldable pub settle_at : Run → ℕ → LockSnapshot → Option StepResult → Run × List Notice
settle_at r idx snap none = (r, [])
settle_at r idx snap (some st) = (
  record r { steps = set r.steps idx (settled st snap); last_locks = some snap },
  locks_notice snap ∷ step_notice (settled st snap) ∷ state_notice ∷ [],
)

unfoldable pub settle_step : Run → ℕ → LockSnapshot → Run × List Notice
settle_step r idx snap = settle_at r idx snap (get_elem? r.steps idx)

-- `execute`, when the statement has returned.
unfoldable pub completed : StepResult → StmtResult → List PlanRow → ℕ → ℕ → StepResult
completed st res plan end duration = evaluate (record st {
  ended_at = some end;
  plan = plan;
  duration_ms = duration;
  columns = res.columns;
  rows = res.rows;
  row_count = res.row_count;
  rows_truncated = res.truncated;
  rows_affected = res.affected;
  last_insert_id = res.last_insert_id;
  status = if no_error res.error then step_done else step_failed;
  error = if no_error res.error then st.error else res.error;
})

unfoldable pub release : Bytes → Option SqlError → Session → Session
release sql error a = record a { busy = false; in_trx = track_transaction a.in_trx sql error }

unfoldable pub is_running : RunStatus → Bool
is_running running = true
is_running _ = false

-- The status when a statement has ended: the last one to end finishes the run.
unfoldable pub finish_status : Run → RunStatus
finish_status r =
    if leb (length r.steps) r.cursor && not (any_busy r.actors) && is_running r.status
    then finished
    else r.status

unfoldable pub complete_at :
    Run → ℕ → StmtResult → List PlanRow → ℕ → ℕ → Option StepResult → Run × List Notice
complete_at r idx res plan end duration none = (r, [])
complete_at r idx res plan end duration (some st) =
    let st' = completed st res plan end duration in
    let r' = record r {
      steps = set r.steps idx st';
      actors = modify_session (release st.sql res.error) r.actors st.actor;
    } in
    (record r' { status = finish_status r' }, step_notice st' ∷ [])

unfoldable pub complete_step : Run → ℕ → StmtResult → List PlanRow → ℕ → ℕ → Run × List Notice
complete_step r idx res plan end duration =
    complete_at r idx res plan end duration (get_elem? r.steps idx)

-- `publishLocks`, and the state behind it, when a statement has ended.
unfoldable pub publish_locks : Run → LockSnapshot → Run × List Notice
publish_locks r snap = (record r { last_locks = some snap }, locks_notice snap ∷ state_notice ∷ [])

-- `captureDeadlockReport`, when the report has been read.
unfoldable pub record_deadlock : Run → Bytes → Run
record_deadlock r report = if is_blank report then r else record r { deadlock_report = report }

-- `Interrupt`, `TakeInterrupt` and `Interrupted`.
unfoldable pub interrupt : Run → Bytes → Run
interrupt r reason = record r {
  interrupt = if is_blank reason then str "stopped by the user" else reason;
}

unfoldable pub take_interrupt : Run → Run × Bytes
take_interrupt r = (record r { interrupt = [] }, r.interrupt)

unfoldable pub interrupted : Run → Bool
interrupted r = not (is_blank r.interrupt)

-- `Close`, its state; the channel `ready` is closed once, with an error if setup had none.
unfoldable pub close : Run → Run
close r = if r.is_closed then r else record r {
  is_closed = true;
  status = closed;
  ready_closed = true;
  setup_error = if r.ready_closed then r.setup_error else (elim r.setup_error [
    | none ↦ some (str "the run was closed before it was ready")
    | some text ↦ some text
  ]);
}
