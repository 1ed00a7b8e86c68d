-- ===== src/Engine/Outcome/Verdicts.antt =====
-- The verdict on a step, and the claim of the scenario (engine/run.go, `evaluateLocked`).
use deadlocker.Base.{Bool, true, Option, none, some, ◌≡◌, refl, ◌≢◌, ◌⊎◌, ◌↔◌, arith, str, bytes_eq}
use deadlocker.Casedef.Types.{
  Expectation, expect_ok, expect_blocks, expect_error, expect_deadlock, expect_timeout, expect_any,
  unknown, is_valid, expectation_text,
}
use deadlocker.Engine.Types.{
  StepStatus, step_pending, step_running, step_blocked, step_done, step_failed, ErrorKind, deadlock,
  timeout, SqlError, StepResult, matched, mismatched,
}
use deadlocker.Engine.Outcome.{
  expectation_eq, classify_error, classify_by, classify, matches_expectation, judge, evaluate,
}

abbrev pub HasKind : ErrorKind → Option SqlError → Type 0
HasKind k none = ⊥
HasKind k (some e) = e.kind ≡ k

-- What a claim means for a step that has been submitted: the outcome that it names, any error for
-- `error`, and a wait at any time for `blocks`.
abbrev pub Meets : Expectation → StepStatus → Option SqlError → Bool → Type 0
Meets expect_ok s e waited = s ≡ step_done
Meets expect_blocks s e waited = (s ≡ step_running) ⊎ (s ≡ step_blocked) ⊎ (waited ≡ true)
Meets expect_error s e waited = s ≡ step_failed
Meets expect_deadlock s e waited = (s ≡ step_failed) × HasKind deadlock e
Meets expect_timeout s e waited = (s ≡ step_failed) × HasKind timeout e
Meets expect_any s e waited = Unit
Meets (unknown _) s e waited = ⊥

verdict_iff :
    (x : Expectation) (s : StepStatus) (e : Option SqlError) (st : StepResult)
    → is_valid x ≡ true
    → x ≢ expect_any
    → s ≢ step_pending
    → st.expect ≡ x
    → (((judge st (classify_by s e)).verdict ≡ matched) ↔ Meets x s e st.was_blocked)
      × (((judge st (classify_by s e)).verdict ≡ matched)
          ⊎ ((judge st (classify_by s e)).verdict ≡ mismatched))
unfolding judge classify_by classify_error matches_expectation expectation_eq expectation_text str
    bytes_eq is_valid
verdict_iff expect_ok s e st v a p h = ground arith
verdict_iff _ s e st v a p h = ground arith

-- A submitted step with a valid claim other than `any` gets the verdict `matched` exactly when it
-- meets the claim, and `mismatched` otherwise.
pub evaluate-Meets :
    (st : StepResult)
    → is_valid st.expect ≡ true
    → st.expect ≢ expect_any
    → st.status ≢ step_pending
    → (((evaluate st).verdict ≡ matched) ↔ Meets st.expect st.status st.error st.was_blocked)
      × (((evaluate st).verdict ≡ matched) ⊎ ((evaluate st).verdict ≡ mismatched))
unfolding evaluate classify
evaluate-Meets st v a p = verdict_iff st.expect st.status st.error st v a p refl
