-- ===== src/Agentapi/Jobs/Sweep/Summary.antt =====
-- The cells of the columns, and the summary of a matrix (agentapi/jobs.go).
use deadlocker.Base.{
  ℕ, ◌+◌, ltb, ◌==◌, Bool, true, false, ◌||◌, Option, none, some, List, [], ◌∷◌, ◌++◌, Bytes,
  length, get_elem?, str, decimal, join, if◌then◌else◌,
}
use deadlocker.Casedef.Validate.{is_seen}
use deadlocker.Engine.Types.{
  StepResult, StepStatus, step_pending, ErrorKind, SqlError, deadlock, timeout, other,
}
use deadlocker.Agentapi.Jobs.{MatrixCell, MatrixColumn, MatrixResult}
use deadlocker.Agentapi.Jobs.Play.{is_blocked_status}

unfoldable pub is_pending_status : StepStatus → Bool
is_pending_status step_pending = true
is_pending_status _ = false

unfoldable pub outcome_of_cell : MatrixCell → Bytes
outcome_of_cell c = elim c.error [
  | some deadlock ↦ str "deadlock"
  | some timeout ↦ str "timeout"
  | some other ↦ str "error"
  | none ↦
      if c.blocked
      then str "blocked"
      else if is_pending_status c.status
      then str "not reached"
      else str "ok"
]

unfoldable pub error_kind : Option SqlError → Option ErrorKind
error_kind none = none
error_kind (some e) = some e.kind

unfoldable pub cell_of_step : StepResult → MatrixCell
cell_of_step s =
    let cell : MatrixCell = record {
      status = s.status;
      verdict = s.verdict;
      error = error_kind s.error;
      blocked = s.was_blocked || is_blocked_status s.status;
      outcome = [];
    } in
    record cell { outcome = outcome_of_cell cell }

unfoldable pub plural : ℕ → Bytes → Bytes → Bytes
plural n one many = if n == 1 then one else many

-- The outcomes of the columns that have a cell for this step.
unfoldable pub outcomes_at : ℕ → List MatrixColumn → List Bytes
outcomes_at i [] = []
outcomes_at i (col ∷ cols) = elim (get_elem? col.cells i) [
  | none ↦ outcomes_at i cols
  | some cell ↦ cell.outcome ∷ outcomes_at i cols
]

unfoldable pub labelled_outcomes : ℕ → List MatrixColumn → List Bytes
labelled_outcomes i [] = []
labelled_outcomes i (col ∷ cols) = elim (get_elem? col.cells i) [
  | none ↦ labelled_outcomes i cols
  | some cell ↦ (col.label ++ str ": " ++ cell.outcome) ∷ labelled_outcomes i cols
]

-- The keys of the map `seen`.
unfoldable pub seen_outcomes : List Bytes → List Bytes
seen_outcomes [] = []
seen_outcomes (o ∷ os) = let seen = seen_outcomes os in if is_seen seen o then seen else o ∷ seen

unfoldable pub differs_at : ℕ → List MatrixColumn → Bool
differs_at i cols = ltb 1 (length (seen_outcomes (outcomes_at i cols)))

unfoldable pub step_text : ℕ → List MatrixColumn → Bytes
step_text i cols =
    str "step "
    ++ decimal (i + 1)
    ++ str " ("
    ++ join (labelled_outcomes i cols) (str ", ")
    ++ str ")"

-- The steps whose outcomes differ, from index `i`.
unfoldable pub differing_from : ℕ → List Bytes → List MatrixColumn → List Bytes
differing_from i [] cols = []
differing_from i (l ∷ labels) cols =
    let rest = differing_from (i + 1) labels cols in
    if differs_at i cols then step_text i cols ∷ rest else rest

unfoldable pub did_not_run : MatrixColumn → Bool
did_not_run col = ltb 0 (length col.error) || (length col.cells == 0)

unfoldable pub failed_labels : List MatrixColumn → List Bytes
failed_labels [] = []
failed_labels (col ∷ cols) =
    let rest = failed_labels cols in if did_not_run col then col.label ∷ rest else rest

unfoldable pub failed_suffix : List Bytes → Bytes
failed_suffix failed =
    if ltb 0 (length failed)
    then str " ("
      ++ join failed (str ", ")
      ++ str " did not run, so "
      ++ plural (length failed) (str "it was") (str "they were")
      ++ str " not compared)"
    else []

unfoldable pub summarise_matrix : MatrixResult → Bytes
summarise_matrix res =
    let differing = differing_from 0 res.step_labels res.columns in
    let failed = failed_labels res.columns in
    if length differing == 0
    then if length failed == length res.columns
      then str "nothing could be compared: no column ran"
      else str "the "
        ++ res.axis_label
        ++ str " changes nothing here; every column that ran behaves identically"
        ++ failed_suffix failed
    else str "outcomes differ at " ++ join differing (str "; ") ++ failed_suffix failed
