-- ===== src/Engine/Records.antt =====
-- The records of past runs and the log that keeps them (engine/history.go).
pub mod Summary
pub mod Entries
pub mod Log
use deadlocker.Base.{
  ℕ, zero, suc, ◌+◌, ltb, Bool, true, false, not, ◌&&◌, ◌||◌, Option, none, some, List, [], ◌∷◌,
  ◌++◌, Bytes, length, bytes_eq, str, if◌then◌else◌, map,
}
use deadlocker.Engine.Types.{
  StepStatus, step_pending, step_blocked, RunStatus, preparing, ready, running, finished, failed,
  closed, ErrorKind, deadlock, timeout, other, SqlError, Verdict, no_verdict, matched, mismatched,
  StepResult, LockSnapshot, Run,
}

abbrev pub history_limit_runs : ℕ
history_limit_runs = 500

-- What a run's state says besides the fields of `Run`.
pub record RunInfo : Type 0 where
  pub id : Bytes
  pub case_id : Bytes
  pub case_name : Bytes
  pub image : Bytes
  pub isolation : Bytes
  pub lock_wait_timeout : ℕ
  pub prepared : Bool
  pub started : ℕ
  pub ephemeral : Bool
  pub draft_id : Bytes

-- The values of `Outcome`.
pub data Outcome : Type 0 where
  mismatch_outcome deadlock_outcome timeout_outcome error_outcome not_started clean : Outcome

pub record Record : Type 0 where
  pub run_id : Bytes
  pub case_id : Bytes
  pub case_name : Bytes
  pub image : Bytes
  pub isolation : Bytes
  pub lock_wait_timeout : ℕ
  pub prepared : Bool
  pub started_at : ℕ
  pub ended_at : ℕ
  pub status : RunStatus
  pub steps : List StepResult
  pub final_locks : Option LockSnapshot
  pub deadlock_report : Bytes
  pub outcome : Outcome
  pub ephemeral : Bool
  pub draft_id : Bytes
  pub submitted : ℕ
  pub matches : ℕ
  pub mismatches : ℕ
  pub blocked : ℕ
  pub deadlocks : ℕ
  pub timeouts : ℕ
  pub errors : ℕ

unfoldable pub outcome_of : Record → Outcome
outcome_of r =
    if ltb 0 r.mismatches
    then mismatch_outcome
    else if ltb 0 r.deadlocks
    then deadlock_outcome
    else if ltb 0 r.timeouts
    then timeout_outcome
    else if ltb 0 r.errors
    then error_outcome
    else if ltb 0 r.submitted
    then clean
    else not_started

unfoldable pub is_pending : StepStatus → Bool
is_pending step_pending = true
is_pending _ = false

unfoldable pub is_blocked : StepStatus → Bool
is_blocked step_blocked = true
is_blocked _ = false

-- One round of the loop over the steps.
unfoldable pub count_submitted : StepResult → Record → Record
count_submitted s rec =
    if is_pending s.status then rec else record rec { submitted = rec.submitted + 1 }

unfoldable pub count_verdict : StepResult → Record → Record
count_verdict s rec = elim s.verdict [
  | no_verdict ↦ rec
  | matched ↦ record rec { matches = rec.matches + 1 }
  | mismatched ↦ record rec { mismatches = rec.mismatches + 1 }
]

unfoldable pub count_blocked : StepResult → Record → Record
count_blocked s rec =
    if s.was_blocked || is_blocked s.status then record rec { blocked = rec.blocked + 1 } else rec

unfoldable pub count_kind : ErrorKind → Record → Record
count_kind deadlock rec = record rec { deadlocks = rec.deadlocks + 1 }
count_kind timeout rec = record rec { timeouts = rec.timeouts + 1 }
count_kind other rec = record rec { errors = rec.errors + 1 }

unfoldable pub count_error : Option SqlError → Record → Record
count_error none rec = rec
count_error (some e) rec = count_kind e.kind rec

unfoldable pub count_step : StepResult → Record → Record
count_step s rec = count_error s.error (count_blocked s (count_verdict s (count_submitted s rec)))

unfoldable pub count_steps : List StepResult → Record → Record
count_steps [] rec = rec
count_steps (s ∷ ss) rec = count_steps ss (count_step s rec)

unfoldable pub blank_record : Run → RunInfo → ℕ → Record
blank_record r info now = record {
  run_id = info.id;
  case_id = info.case_id;
  case_name = info.case_name;
  image = info.image;
  isolation = info.isolation;
  lock_wait_timeout = info.lock_wait_timeout;
  prepared = info.prepared;
  started_at = info.started;
  ended_at = now;
  status = r.status;
  steps = r.steps;
  final_locks = none;
  deadlock_report = r.deadlock_report;
  outcome = clean;
  ephemeral = info.ephemeral;
  draft_id = info.draft_id;
  submitted = 0;
  matches = 0;
  mismatches = 0;
  blocked = 0;
  deadlocks = 0;
  timeouts = 0;
  errors = 0;
}

unfoldable pub snapshot_record : Run → RunInfo → ℕ → Record
snapshot_record r info now =
    let counted = count_steps r.steps (blank_record r info now) in
    let kept = record counted { final_locks = r.last_locks } in
    record kept { outcome = outcome_of kept }

-- `records` is oldest first; `by_id` is the keys of the map, each of which leads to the record with
-- that id in `records`, since the map and the list share their pointers.
pub record History : Type 0 where
  pub records : List Record
  pub by_id : List Bytes

unfoldable pub new_history : History
new_history = record { records = []; by_id = [] }

unfoldable pub has_key : List Bytes → Bytes → Bool
has_key [] k = false
has_key (x ∷ xs) k = bytes_eq x k || has_key xs k

unfoldable pub delete_key : List Bytes → Bytes → List Bytes
delete_key [] k = []
delete_key (x ∷ xs) k = let rest = delete_key xs k in if bytes_eq x k then rest else x ∷ rest

unfoldable pub find_record : List Record → Bytes → Option Record
find_record [] k = none
find_record (r ∷ rs) k = if bytes_eq r.run_id k then some r else find_record rs k

-- `*existing = *rec`.
unfoldable pub overwrite : List Record → Record → List Record
overwrite [] rec = []
overwrite (r ∷ rs) rec =
    let rest = overwrite rs rec in if bytes_eq r.run_id rec.run_id then rec ∷ rs else r ∷ rest

-- The first record with the id goes.
unfoldable pub remove_record : List Record → Bytes → List Record
remove_record [] k = []
remove_record (r ∷ rs) k =
    let rest = remove_record rs k in if bytes_eq r.run_id k then rs else r ∷ rest

-- Over the limit, the oldest one goes.
unfoldable pub evict : History → History
evict h = elim h.records [
  | [] ↦ h
  | (r ∷ rs) ↦
      if ltb history_limit_runs (length (r ∷ rs))
      then record { records = rs; by_id = delete_key h.by_id r.run_id }
      else h
]

unfoldable pub put : History → Record → History
put h rec =
    if bytes_eq rec.run_id []
    then h
    else if has_key h.by_id rec.run_id
    then record h { records = overwrite h.records rec }
    else evict (record { records = h.records ++ (rec ∷ []); by_id = h.by_id ++ (rec.run_id ∷ []) })

unfoldable pub forget : History → Bytes → History × Bool
forget h id =
    if has_key h.by_id id
    then (record { records = remove_record h.records id; by_id = delete_key h.by_id id }, true)
    else (h, false)

unfoldable pub clear : History → History × ℕ
clear h = (new_history, length h.records)

unfoldable pub get : History → Bytes → Option Record
get h id = if has_key h.by_id id then find_record h.records id else none
