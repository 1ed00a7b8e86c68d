-- ===== src/Engine/Records/Summary.antt =====
-- What the one-word summary of a run says of its steps (engine/history.go).
use deadlocker.Base.{ℕ, ◌≡◌, Bool, true, false, not, ◌||◌, none, some, List, [], ◌∷◌, ltb, arith}
use deadlocker.Engine.Types.{ErrorKind, deadlock, timeout, other, mismatched, StepResult, Run}
use deadlocker.Engine.Records.{
  RunInfo, Record, Outcome, mismatch_outcome, deadlock_outcome, timeout_outcome, error_outcome,
  not_started, clean, outcome_of, is_pending, count_submitted, count_verdict, count_blocked,
  count_kind, count_error, count_step, count_steps, blank_record, snapshot_record,
}

abbrev pub is_mismatched : StepResult → Bool
is_mismatched s = elim s.verdict [ mismatched ↦ true | _ ↦ false ]

abbrev pub error_is : ErrorKind → ErrorKind → Bool
error_is deadlock deadlock = true
error_is timeout timeout = true
error_is other other = true
error_is _ _ = false

abbrev pub failed_with : ErrorKind → StepResult → Bool
failed_with kind s = elim s.error [ none ↦ false | some e ↦ error_is kind e.kind ]

abbrev pub was_submitted : StepResult → Bool
was_submitted s = not (is_pending s.status)

abbrev pub any_step : (StepResult → Bool) → List StepResult → Bool
any_step p [] = false
any_step p (s ∷ ss) = p s || any_step p ss

-- The summary, from the steps themselves.
abbrev pub Means : List StepResult → Outcome → Type 0
Means ss mismatch_outcome = any_step is_mismatched ss ≡ true
Means ss deadlock_outcome =
    (any_step is_mismatched ss ≡ false) × (any_step (failed_with deadlock) ss ≡ true)
Means ss timeout_outcome =
    (any_step is_mismatched ss ≡ false)
    × (any_step (failed_with deadlock) ss ≡ false)
    × (any_step (failed_with timeout) ss ≡ true)
Means ss error_outcome =
    (any_step is_mismatched ss ≡ false)
    × (any_step (failed_with deadlock) ss ≡ false)
    × (any_step (failed_with timeout) ss ≡ false)
    × (any_step (failed_with other) ss ≡ true)
Means ss not_started =
    (any_step is_mismatched ss ≡ false)
    × (any_step (failed_with deadlock) ss ≡ false)
    × (any_step (failed_with timeout) ss ≡ false)
    × (any_step (failed_with other) ss ≡ false)
    × (any_step was_submitted ss ≡ false)
Means ss clean =
    (any_step is_mismatched ss ≡ false)
    × (any_step (failed_with deadlock) ss ≡ false)
    × (any_step (failed_with timeout) ss ≡ false)
    × (any_step (failed_with other) ss ≡ false)
    × (any_step was_submitted ss ≡ true)

-- A counter is above nought when it was, or when a step counts.
abbrev Counted : Record → Record → List StepResult → Type 0
Counted before after ss =
    (ltb 0 after.mismatches ≡ (ltb 0 before.mismatches || any_step is_mismatched ss))
    × (ltb 0 after.deadlocks ≡ (ltb 0 before.deadlocks || any_step (failed_with deadlock) ss))
    × (ltb 0 after.timeouts ≡ (ltb 0 before.timeouts || any_step (failed_with timeout) ss))
    × (ltb 0 after.errors ≡ (ltb 0 before.errors || any_step (failed_with other) ss))
    × (ltb 0 after.submitted ≡ (ltb 0 before.submitted || any_step was_submitted ss))

count_step-Counted : (s : StepResult) (rec : Record) → Counted rec (count_step s rec) (s ∷ [])
unfolding count_step count_submitted count_verdict count_blocked count_error count_kind
count_step-Counted s rec = (ground arith, ground arith, ground arith, ground arith, ground arith)

count_steps-Counted : (ss : List StepResult) (rec : Record) → Counted rec (count_steps ss rec) ss
unfolding count_steps
count_steps-Counted [] rec = (ground arith, ground arith, ground arith, ground arith, ground arith)
count_steps-Counted (s ∷ ss) rec =
    let (a, b, c, d, e) = count_step-Counted s rec in
    let (a', b', c', d', e') = count_steps-Counted ss (count_step s rec) in
    (ground arith, ground arith, ground arith, ground arith, ground arith)

-- The outcome that a run's record has is what its steps say: a mismatch before a deadlock, that
-- before a timeout, that before another error, and of the rest, whether a step was submitted.
pub snapshot_record-Means :
    (r : Run) (info : RunInfo) (now : ℕ) → Means r.steps (snapshot_record r info now).outcome
unfolding snapshot_record outcome_of blank_record
snapshot_record-Means r info now =
    let (a, b, c, d, e) = count_steps-Counted r.steps (blank_record r info now) in ground arith
