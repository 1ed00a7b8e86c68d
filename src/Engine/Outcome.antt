-- ===== src/Engine/Outcome.antt =====
-- How a statement's result is classified and held against the scenario's claim (engine/run.go).
pub mod Verdicts
use deadlocker.Base.{
  to_upper, ℕ, ◌-◌, ◌==◌, leb, ltb, Bool, true, false, ◌&&◌, ◌||◌, not, Option, none, some, List,
  [], ◌∷◌, ◌++◌, Bytes, bytes_eq, has_prefix, trim_space, str, if◌then◌else◌,
}
use deadlocker.Casedef.Types.{
  Expectation, expect_ok, expect_blocks, expect_error, expect_deadlock, expect_timeout, expect_any,
  unknown, expectation_text,
}
use deadlocker.Engine.Types.{
  StepStatus, step_pending, step_running, step_blocked, step_done, step_failed, ErrorKind, deadlock,
  timeout, other, SqlError, StepResult, Verdict, no_verdict, matched, mismatched,
}

unfoldable pub expectation_eq : Expectation → Expectation → Bool
expectation_eq a b = bytes_eq (expectation_text a) (expectation_text b)

-- A failed statement by the kind of its error.
unfoldable pub classify_error : Option SqlError → Expectation
classify_error none = expect_error
classify_error (some e) = elim e.kind [
  | deadlock ↦ expect_deadlock
  | timeout ↦ expect_timeout
  | other ↦ expect_error
]

unfoldable pub classify_by : StepStatus → Option SqlError → Expectation
classify_by step_blocked e = expect_blocks
classify_by step_running e = expect_blocks
classify_by step_done e = expect_ok
classify_by step_failed e = classify_error e
classify_by step_pending e = expect_any

unfoldable pub classify : StepResult → Expectation
classify st = classify_by st.status st.error

unfoldable pub matches_expectation : Expectation → Expectation → Bool
matches_expectation want got =
    expectation_eq want got
    || (expectation_eq want expect_error
        && (expectation_eq got expect_deadlock || expectation_eq got expect_timeout))

-- The verdict on a step whose outcome is `actual`.
unfoldable pub judge : StepResult → Expectation → StepResult
judge st actual =
    if expectation_eq st.expect expect_any
    then record st { actual = actual; verdict = no_verdict }
    else if matches_expectation st.expect actual
    then record st { actual = actual; verdict = matched; verdict_note = [] }
    else if expectation_eq st.expect expect_blocks && st.was_blocked
    then record st {
      actual = actual;
      verdict = matched;
      verdict_note = str "blocked as expected, then " ++ expectation_text actual;
    }
    else record st {
      actual = actual;
      verdict = mismatched;
      verdict_note =
          str "expected "
          ++ expectation_text st.expect
          ++ str ", observed "
          ++ expectation_text actual;
    }

unfoldable pub evaluate : StepResult → StepResult
evaluate st = judge st (classify st)

unfoldable pub is_deadlock : Option SqlError → Bool
is_deadlock none = false
is_deadlock (some e) = elim e.kind [ deadlock ↦ true | _ ↦ false ]

unfoldable pub no_error : Option SqlError → Bool
no_error none = true
no_error (some _) = false

unfoldable pub opens_transaction : Bytes → Bool
opens_transaction head = has_prefix head (str "BEGIN") || has_prefix head (str "START TRANSACTION")

unfoldable pub ends_transaction : Bytes → Bool
ends_transaction head = has_prefix head (str "COMMIT") || has_prefix head (str "ROLLBACK")

unfoldable pub track_transaction : Bool → Bytes → Option SqlError → Bool
track_transaction current sql err =
    let head = to_upper (trim_space sql) in
    if is_deadlock err
    then false
    else if opens_transaction head
    then no_error err
    else if ends_transaction head && no_error err
    then false
    else current

-- An error of the driver: the number, SQL state and message of a MySQL error, if it is one, and the
-- text of the error.
pub record DriverError : Type 0 where
  pub text : Bytes
  pub mysql : Option (ℕ × Bytes × Bytes)

abbrev pub deadlock_hint : Bytes
deadlock_hint =
    str "InnoDB detected a cycle in the wait-for graph and chose this transaction as the victim. "
    ++ str "The entire transaction was rolled back, not just this statement "
    ++ 0xe2 ∷ 0x80 ∷ 0x94 ∷ str " the application must retry it from the beginning."

abbrev pub timeout_hint : Bytes
timeout_hint =
    str "The statement waited longer than innodb_lock_wait_timeout. With the default "
    ++ str "innodb_rollback_on_timeout=OFF only this statement was rolled back; the transaction is "
    ++ str "still open and still holds every lock it had already acquired."

unfoldable pub mysql_error : ℕ → Bytes → Bytes → SqlError
mysql_error number sql_state message = record {
  code = number;
  sql_state = sql_state;
  message = message;
  kind = if number == 1213 then deadlock else if number == 1205 then timeout else other;
  hint = if number == 1213 then deadlock_hint else if number == 1205 then timeout_hint else [];
}

unfoldable pub to_sql_error : DriverError → SqlError
to_sql_error e = elim e.mysql [
  | none ↦ record { code = 0; sql_state = []; message = e.text; kind = other; hint = [] }
  | some (number, sql_state, message) ↦ mysql_error number sql_state message
]
