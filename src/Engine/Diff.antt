-- ===== src/Engine/Diff.antt =====
-- The comparison of two past runs (engine/diff.go).
pub mod Laws
use deadlocker.Base.{
  ℕ, zero, suc, ◌+◌, ltb, leb, ◌==◌, Bool, true, false, not, ◌&&◌, ◌||◌, Option, none, some, List,
  [], ◌∷◌, ◌++◌, Bytes, length, bytes_eq, str, decimal, get_elem?, if◌then◌else◌, map,
}
use deadlocker.Casedef.Types.{Expectation}
use deadlocker.Engine.Types.{
  StepStatus, step_pending, step_running, step_blocked, step_done, step_failed, ErrorKind, deadlock,
  timeout, other, SqlError, Verdict, no_verdict, matched, mismatched, StepResult,
}
use deadlocker.Engine.Records.{Record, is_blocked}

-- One difference, in the words of the page.
pub record FieldDiff : Type 0 where
  pub label : Bytes
  pub a : Bytes
  pub b : Bytes

pub record StepDiff : Type 0 where
  pub index : ℕ
  pub label : Bytes
  pub a : Option StepResult
  pub b : Option StepResult
  pub differences : List FieldDiff

-- `A` and `B`, the two records, are what was compared, and are left out.
pub record DiffResult : Type 0 where
  pub setup : List FieldDiff
  pub steps : List StepDiff
  pub changed : ℕ
  pub same_case : Bool

unfoldable pub differs : StepDiff → Bool
differs d = leb 1 (length d.differences)

abbrev pub dash : Bytes
dash = str "—"

unfoldable pub or_dash : Bytes → Bytes
or_dash s = if bytes_eq s [] then dash else s

unfoldable pub join_rest : List Bytes → Bytes
join_rest [] = []
join_rest (s ∷ ss) = str ", " ++ s ++ join_rest ss

unfoldable pub join_or_dash : List Bytes → Bytes
join_or_dash [] = dash
join_or_dash (s ∷ ss) = s ++ join_rest ss

unfoldable pub yes_no : Bool → Bytes
yes_no b = if b then str "yes" else str "no"

unfoldable pub protocol_name : Bool → Bytes
protocol_name prepared =
    if prepared then str "binary (prepared statements)" else str "text (COM_QUERY)"

unfoldable pub kind_text : ErrorKind → Bytes
kind_text deadlock = str "deadlock"
kind_text timeout = str "timeout"
kind_text other = str "other"

unfoldable pub error_summary : Option SqlError → Bytes
error_summary none = str "none"
error_summary (some e) = decimal e.code ++ str " " ++ kind_text e.kind

unfoldable pub status_text : StepStatus → Bytes
status_text step_pending = str "pending"
status_text step_running = str "running"
status_text step_blocked = str "blocked"
status_text step_done = str "done"
status_text step_failed = str "error"

unfoldable pub verdict_text : Verdict → Bytes
verdict_text no_verdict = []
verdict_text matched = str "match"
verdict_text mismatched = str "mismatch"

unfoldable pub is_separator : ℕ → Bool
is_separator c = c == b' ' || c == b'\t' || c == b'\n' || c == b'\r'

-- The loop over the text, which is valid UTF-8: `started` is whether something was put out, and
-- `space` whether separators came since.
unfoldable pub one_line_from : Bool → Bool → Bytes → Bytes
one_line_from started space [] = []
one_line_from started space (c ∷ s) =
    let after_separator = one_line_from started true s in
    let after_letter = one_line_from true false s in
    if is_separator c
    then after_separator
    else if space && started
    then b' ' ∷ c ∷ after_letter
    else c ∷ after_letter

unfoldable pub normalise_sql : Bytes → Bytes
normalise_sql s = one_line_from false false s

unfoldable pub duration_bucket : ℕ → Bytes
duration_bucket ms =
    if ltb ms 50
    then str "instant (<50ms)"
    else if ltb ms 500
    then str "fast (<500ms)"
    else if ltb ms 2000
    then str "noticeable (<2s)"
    else if ltb ms 10000
    then str "slow (<10s)"
    else str "very slow (>10s)"

-- `add`, for all the fields of a comparison in order.
unfoldable pub add_fields : List FieldDiff → List FieldDiff
add_fields [] = []
add_fields (f ∷ fs) = let rest = add_fields fs in if bytes_eq f.a f.b then rest else f ∷ rest

unfoldable pub field : Bytes → Bytes → Bytes → FieldDiff
field label a b = record { label = label; a = a; b = b }

unfoldable pub setup_fields : Record → Record → List FieldDiff
setup_fields a b =
    field (str "Scenario") a.case_name b.case_name
    ∷ field (str "Image") a.image b.image
    ∷ field (str "Isolation") (or_dash a.isolation) (or_dash b.isolation)
    ∷ field (str "Lock wait timeout") (decimal a.lock_wait_timeout ++ str "s")
        (decimal b.lock_wait_timeout ++ str "s")
    ∷ field (str "Protocol") (protocol_name a.prepared) (protocol_name b.prepared)
    ∷ field (str "Steps submitted") (decimal a.submitted) (decimal b.submitted)
    ∷ field (str "Steps that blocked") (decimal a.blocked) (decimal b.blocked)
    ∷ field (str "Deadlocks") (decimal a.deadlocks) (decimal b.deadlocks)
    ∷ field (str "Lock wait timeouts") (decimal a.timeouts) (decimal b.timeouts)
    ∷ field (str "Other errors") (decimal a.errors) (decimal b.errors)
    ∷ field (str "Expectation mismatches") (decimal a.mismatches) (decimal b.mismatches)
    ∷ []

unfoldable pub step_fields : StepResult → StepResult → List FieldDiff
step_fields a b =
    field (str "Statement") (normalise_sql a.sql) (normalise_sql b.sql)
    ∷ field (str "Actor") a.actor b.actor
    ∷ field (str "Outcome") (status_text a.status) (status_text b.status)
    ∷ field (str "Hit a lock wait") (yes_no (a.was_blocked || is_blocked a.status))
        (yes_no (b.was_blocked || is_blocked b.status))
    ∷ field (str "Error") (error_summary a.error) (error_summary b.error)
    ∷ field (str "Verdict") (or_dash (verdict_text a.verdict)) (or_dash (verdict_text b.verdict))
    ∷ field (str "Rows returned") (decimal a.row_count) (decimal b.row_count)
    ∷ field (str "Rows affected") (decimal a.rows_affected) (decimal b.rows_affected)
    ∷ field (str "Blocked by") (join_or_dash a.blocked_by) (join_or_dash b.blocked_by)
    ∷ field (str "Duration") (duration_bucket a.duration_ms) (duration_bucket b.duration_ms)
    ∷ []

unfoldable pub setup_diffs : Record → Record → List FieldDiff
setup_diffs a b = add_fields (setup_fields a b)

unfoldable pub step_diffs : Option StepResult → Option StepResult → List FieldDiff
step_diffs none none = []
step_diffs none (some b) =
    field (str "Present") (str "not in this run") (str "step " ++ decimal b.index) ∷ []
step_diffs (some a) none =
    field (str "Present") (str "step " ++ decimal a.index) (str "not in this run") ∷ []
step_diffs (some a) (some b) = add_fields (step_fields a b)

unfoldable pub label_of : Option StepResult → Option StepResult → Bytes
label_of (some a) b = a.label
label_of none (some b) = b.label
label_of none none = []

unfoldable pub step_diff : ℕ → Option StepResult → Option StepResult → StepDiff
step_diff i a b = record {
  index = i + 1;
  label = label_of a b;
  a = a;
  b = b;
  differences = step_diffs a b;
}

-- The loop over the indices, from `i`, with `n` to go.
unfoldable pub step_diffs_from : List StepResult → List StepResult → ℕ → ℕ → List StepDiff
step_diffs_from xs ys i zero = []
step_diffs_from xs ys i (suc n) =
    step_diff i (get_elem? xs i) (get_elem? ys i) ∷ step_diffs_from xs ys (i + 1) n

unfoldable pub count_differing : List StepDiff → ℕ
count_differing [] = 0
count_differing (d ∷ ds) = let rest = count_differing ds in if differs d then rest + 1 else rest

unfoldable pub longer : ℕ → ℕ → ℕ
longer n m = if ltb n m then m else n

unfoldable pub diff : Record → Record → DiffResult
diff a b =
    let steps = step_diffs_from a.steps b.steps 0 (longer (length a.steps) (length b.steps)) in
    record {
      setup = setup_diffs a b;
      steps = steps;
      changed = count_differing steps;
      same_case = bytes_eq a.case_id b.case_id;
    }
