-- ===== src/Agentapi/Jobs/Sweep.antt =====
-- Running a scenario once per value of an axis, and comparing what happened (agentapi/jobs.go).
pub mod Summary
pub mod Columns
pub mod Agreement
use deadlocker.Base.{
  ℕ, zero, suc, ◌+◌, ltb, ◌==◌, ◌≡◌, Bool, true, false, ◌||◌, Option, none, some, List, [], ◌∷◌,
  ◌++◌, Bytes, length, get_elem?, map, bytes_eq, str, decimal, join, inl, inr, if◌then◌else◌, ◌⊎◌,
}
use deadlocker.Casedef.Types.{Case, Step}
use deadlocker.Casedef.Validate.{is_seen}
use deadlocker.Engine.Types.{
  StepResult, StepStatus, step_pending, ErrorKind, SqlError, deadlock, timeout, other,
}
use deadlocker.Agentapi.Jobs.{
  Job, Jobs, JobKind, MatrixCell, MatrixColumn, MatrixResult, done, cancelled, put, update,
}
use deadlocker.Agentapi.Jobs.Play.{
  Runs, PlayEnd, played, out_of_time, interrupted, out_of_fuel, play_error, Counts, play_all,
  outcome_of_run, is_blocked_status,
}
use deadlocker.Agentapi.Jobs.Sweep.Summary.{cell_of_step, summarise_matrix}
use deadlocker.Agentapi.Jobs.Shrink.{set_progress}
use deadlocker.Agentapi.Jobs.Shrink.Handler.{new_job, set_cancel}

-- The two axes: the isolation level and the image.
pub data Axis : Type 0 where
  by_isolation by_version : Axis

unfoldable pub axis_name : Axis → Bytes
axis_name by_isolation = str "isolation"
axis_name by_version = str "version"

unfoldable pub axis_label : Axis → Bytes
axis_label by_isolation = str "isolation level"
axis_label by_version = str "MySQL version"

unfoldable pub apply_value : Axis → Bytes → Case → Case
apply_value by_isolation value c = record c { mysql = record (c.mysql) { isolation = value } }
apply_value by_version value c = record c { mysql = record (c.mysql) { image = value } }

unfoldable pub isolation_levels : List Bytes
isolation_levels =
    str "READ UNCOMMITTED" ∷ str "READ COMMITTED" ∷ str "REPEATABLE READ" ∷ str "SERIALIZABLE" ∷ []

unfoldable pub default_versions : List Bytes
default_versions = str "mysql:5.7" ∷ str "mysql:8.0" ∷ str "mysql:8.4" ∷ str "mysql:9.7" ∷ []

unfoldable pub images_of : List Bytes → List Bytes
images_of [] = default_versions
images_of (image ∷ images) = image ∷ images

unfoldable pub kind_of_axis : Axis → JobKind
kind_of_axis by_isolation = JobKind.isolation_matrix
kind_of_axis by_version = JobKind.version_matrix

unfoldable pub start_matrix : Axis → Jobs → Bytes → Case → ℕ → Jobs
start_matrix axis jobs id base now =
    put jobs (new_job id (kind_of_axis axis) base now (str "starting"))

unfoldable pub play_message : PlayEnd → Bytes
play_message played = []
play_message out_of_time = str "the scenario did not finish within its time budget"
play_message interrupted = str "context canceled"
play_message out_of_fuel = []
play_message (play_error e) = e

unfoldable pub empty_column : Bytes → Case → MatrixColumn
empty_column value variant = record {
  label = value;
  isolation = variant.mysql.isolation;
  image = variant.mysql.image;
  cells = [];
  deadlocks = 0;
  timeouts = 0;
  blocked = 0;
  error = [];
  run_id = [];
}

unfoldable pub sweep_progress : Bytes → ℕ → ℕ → Bytes
sweep_progress value i n =
    str "running " ++ value ++ str " (" ++ decimal (i + 1) ++ str " of " ++ decimal n ++ str ")"

unfoldable pub finish_sweep : Bool → MatrixResult → ℕ → ℕ → Job → Job
finish_sweep aborted res n now job = record job {
  status = if aborted then cancelled else done;
  progress =
      if aborted
      then decimal (length res.columns) ++ str " of " ++ decimal n ++ str " column(s) ran"
      else str "finished";
  ended = some now;
  matrix = some res;
}

unfoldable pub matrix_result : Axis → Case → List MatrixColumn → MatrixResult
matrix_result axis base cols =
    let res : MatrixResult = record {
      scenario_id = base.id;
      name = base.name;
      axis = axis_name axis;
      axis_label = axis_label axis;
      step_labels = map (λ s. s.label) base.steps;
      step_actors = map (λ s. s.actor) base.steps;
      columns = cols;
      summary = [];
    } in
    record res { summary = summarise_matrix res }

module _ {W R : Type 0} (runs : Runs W R) where
  -- The column of a variant, from what the manager's `Start` gave.
  unfoldable pub column_of : Bytes → Case → W → Bytes ⊎ R → W × MatrixColumn
  column_of value variant w (inl error) = (w, record (empty_column value variant) { error = error })
  column_of value variant w (inr r) =
      let (w1, end) = play_all runs 180000 r w in
      let steps = runs.steps w1 r in
      let (deadlocks, timeouts, blocked) = outcome_of_run steps (0, 0, 0) in
      (
        runs.close_run w1 r,
        record (empty_column value variant) {
          run_id = runs.run_id r;
          error = play_message end;
          cells = map cell_of_step steps;
          deadlocks = deadlocks;
          timeouts = timeouts;
          blocked = blocked;
        },
      )

  unfoldable pub run_value : Axis → Case → Bytes → W → W × MatrixColumn
  run_value axis base value w =
      let variant : Case = record (apply_value axis value base) { ephemeral = true } in
      let (w1, started) = runs.start w variant in column_of value variant w1 started

  -- The loop over the values, from index `i`.
  unfoldable pub sweep_values :
      Bytes → Axis → Case → ℕ → ℕ → List Bytes → Jobs → W → Jobs × W × List MatrixColumn
  sweep_values id axis base n i [] jobs w = (jobs, w, [])
  sweep_values id axis base n i (value ∷ values) jobs w = elim (runs.is_cancelled w) [
    | true ↦ (jobs, w, [])
    | false ↦
        let jobs1 = update jobs id (set_progress (sweep_progress value i n)) in
        let (w1, col) = run_value axis base value w in
        let (jobs2, w2, cols) = sweep_values id axis base n (i + 1) values jobs1 w1 in
        (jobs2, w2, col ∷ cols)
  ]

  -- The last component is the summary of the activity that is published.
  unfoldable pub run_sweep : Bytes → Axis → Case → List Bytes → ℕ → Jobs → W → Jobs × W × Bytes
  run_sweep id axis base values ctx jobs w =
      let jobs1 = update jobs id (set_cancel ctx) in
      let (jobs2, w1, cols) = sweep_values id axis base (length values) 0 values jobs1 w in
      let aborted = runs.is_cancelled w1 in
      let res = matrix_result axis base cols in
      (
        update jobs2 id (finish_sweep aborted res (length values) (runs.now w1)),
        w1,
        axis_label axis
            ++ str " matrix "
            ++ (if aborted then str "aborted" else str "finished")
            ++ str ": "
            ++ res.summary,
      )
