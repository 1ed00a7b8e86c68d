-- ===== src/Engine/Tests.antt =====
-- A run of two steps, the bus and the log at concrete inputs, and the theorems of the engine at
-- inputs where their conditions hold.
use deadlocker.Base.{
  ℕ, ◌≡◌, ◌≢◌, ◌≤◌, ◌↔◌, ◌⊎◌, refl, true, false, none, some, List, [], ◌∷◌, length, bytes_eq, str,
  arith,
}
use deadlocker.Casedef.Types.{Case, expect_blocks, expect_any, is_valid}
use deadlocker.Base.{trim_space, map}
use deadlocker.Casedef.Validate.{
  validate, validate_actors, validate_steps, validate_docs, problem_if, is_empty_text, is_seen,
  actor_problems, step_problems, doc_problems, isolation_problems,
}
use deadlocker.Engine.Run.{unknown_actor}
use deadlocker.Engine.Run.Known.{valid_case-KnownActors}
use deadlocker.Engine.Diff.{diff}
use deadlocker.Engine.Diff.Laws.{swap_field, differences_of, diff-swap}
use deadlocker.Engine.Types.{StepResult, step_blocked, matched, mismatched, closed, Run, Notice}
use deadlocker.Engine.Outcome.{evaluate}
use deadlocker.Engine.Outcome.Verdicts.{Meets, evaluate-Meets}
use deadlocker.Engine.Run.{
  new_step, new_run, setup_done, Begun, refused, begun, begin_step, submitted,
}
use deadlocker.Engine.Run.Reach.{starts, prepared}
use deadlocker.Feed.{Item, stamp, has_id, find_channel}
use deadlocker.Feed.Retained.{bodies}
use deadlocker.Engine.Bus.{
  Bus, new_bus, begin_publish, trim_history, deliver, subscribe, cancel, history_after,
}
use deadlocker.Engine.Bus.Replay.{
  BusCall, publishes, subscribes, closes, calls, calls-Replay, cancel-deliver_panics,
}
use deadlocker.Engine.Records.{Record, new_history, RunInfo, snapshot_record, clean}
use deadlocker.Engine.Records.Log.{
  IsConsistent, new_history-IsConsistent, puts, forgets, log_calls, log_calls-IsConsistent,
}
use deadlocker.Engine.Records.Summary.{Means, snapshot_record-Means}

abbrev two_steps : Case
two_steps = record {
  id = str "case";
  name = str "Two actors";
  category = [];
  description = [];
  tags = [];
  schema = [];
  seed = [];
  path = [];
  built_in = false;
  source = [];
  ephemeral = false;
  draft_id = [];
  mysql = record {
    image = [];
    isolation = [];
    lock_wait_timeout = 0;
    deadlock_detect = none;
    vars = [];
    prepared = false;
  };
  docs = [];
  actors =
      record { id = str "a"; name = str "A"; accent = [] }
      ∷ record { id = str "b"; name = str "B"; accent = [] }
      ∷ [];
  steps =
      record {
        actor = str "a";
        label = [];
        sql = str "BEGIN";
        args = [];
        note = [];
        expect = expect_any;
      }
      ∷ record {
        actor = str "b";
        label = [];
        sql = str "SELECT 1";
        args = [];
        note = [];
        expect = expect_blocks;
      }
      ∷ [];
}

abbrev run_of : Begun → Run
run_of (refused e) = new_run two_steps
run_of (begun r idx ns) = r

abbrev notices_of : Begun → List Notice
notices_of (refused e) = []
notices_of (begun r idx ns) = ns

abbrev prepared_run : Run
prepared_run = setup_done (new_run two_steps) none

abbrev started : Run
started = run_of (begin_step prepared_run 5)

abbrev first_step : StepResult
first_step =
    submitted
      (new_step (two_steps.actors) 0 (record {
        actor = str "a";
        label = [];
        sql = str "BEGIN";
        args = [];
        note = [];
        expect = expect_any;
      }))
      5

abbrev first_index : ℕ
first_index = 0

-- A step that waits, and was expected to.
abbrev waiting : StepResult
waiting = record first_step { expect = expect_blocks; status = step_blocked; was_blocked = true }

evaluate-Meets_example :
    (((evaluate waiting).verdict ≡ matched) ↔ Meets expect_blocks step_blocked none true)
    × (((evaluate waiting).verdict ≡ matched) ⊎ ((evaluate waiting).verdict ≡ mismatched))
unfolding submitted new_step is_valid
evaluate-Meets_example = evaluate-Meets waiting refl (λ e. ground arith) (λ e. ground arith)

abbrev item : ℕ → Item ℕ
item n = record { seq = 0; at = none; body = n }

abbrev bus_calls : List (BusCall ℕ)
bus_calls =
    publishes 1 (item 7) ∷ subscribes 0 ∷ publishes 2 (item 8) ∷ closes ∷ publishes 3 (item 9) ∷ []

calls-Replay_example :
    (b : Bus ℕ) × (calls new_bus bus_calls ≡ some b)
    × (b.seq ≡ 2)
    × (length b.history ≤ 20000)
    × (bodies (history_after b 1) ≡ 8 ∷ [])
calls-Replay_example = calls-Replay bus_calls 1 (omega arith)

abbrev subscribed : Bus ℕ
subscribed = (subscribe new_bus 0).0

abbrev published_bus : Bus ℕ
published_bus = record subscribed {
  seq = 1;
  history = record (item 7) { seq = 1; at = some 3 } ∷ [];
}

subscribed_live :
    (id : ℕ)
    → has_id subscribed.subs id ≡ true
    → (c : _) × (find_channel subscribed.channels id ≡ some c) × (c.is_open ≡ true)
unfolding subscribe new_bus has_id find_channel
subscribed_live id h = (record { id = 0; queue = []; is_open = true }, ground arith, refl)

published_begun :
    begin_publish subscribed 3 (item 7)
    ≡ some (published_bus, record (item 7) { seq = 1; at = some 3 }, 0 ∷ [])
unfolding begin_publish subscribe new_bus stamp trim_history
published_begun = refl

zero_subscribed : has_id (0 ∷ []) 0 ≡ true
unfolding has_id
zero_subscribed = refl

cancel-deliver_panics_example :
    deliver (cancel published_bus 0) (record (item 7) { seq = 1; at = some 3 }) (0 ∷ []) ≡ none
cancel-deliver_panics_example =
    cancel-deliver_panics subscribed published_bus 3 0 (item 7)
      (record (item 7) { seq = 1; at = some 3 }) (0 ∷ []) subscribed_live published_begun
      zero_subscribed

abbrev info : RunInfo
info = record {
  id = str "r1";
  case_id = str "case";
  case_name = [];
  image = [];
  isolation = [];
  lock_wait_timeout = 0;
  prepared = false;
  started = 0;
  ephemeral = false;
  draft_id = [];
}

abbrev kept : Record
kept = snapshot_record started info 9

snapshot_record-Means_example : Means started.steps kept.outcome
snapshot_record-Means_example = snapshot_record-Means started info 9

abbrev plain_record : Record
plain_record = record {
  run_id = b'r' ∷ [];
  case_id = [];
  case_name = [];
  image = [];
  isolation = [];
  lock_wait_timeout = 0;
  prepared = false;
  started_at = 0;
  ended_at = 1;
  status = closed;
  steps = [];
  final_locks = none;
  deadlock_report = [];
  outcome = clean;
  ephemeral = false;
  draft_id = [];
  submitted = 1;
  matches = 0;
  mismatches = 0;
  blocked = 0;
  deadlocks = 0;
  timeouts = 0;
  errors = 0;
}

log_calls-IsConsistent_example :
    IsConsistent (log_calls new_history (puts plain_record ∷ forgets (b'q' ∷ []) ∷ []))
log_calls-IsConsistent_example =
    log_calls-IsConsistent new_history (puts plain_record ∷ forgets (b'q' ∷ []) ∷ [])
      new_history-IsConsistent

diff-swap_example :
    ((diff plain_record kept).setup ≡ map swap_field (diff kept plain_record).setup)
    × (differences_of (diff plain_record kept).steps
        ≡ map (λ fs. map swap_field fs) (differences_of (diff kept plain_record).steps))
    × ((diff plain_record kept).changed ≡ (diff kept plain_record).changed)
diff-swap_example = diff-swap kept plain_record

two_steps_fine : (validate two_steps).1 ≡ []
unfolding validate validate_actors validate_steps validate_docs problem_if is_empty_text is_seen
    actor_problems step_problems doc_problems isolation_problems bytes_eq trim_space str is_valid
two_steps_fine = refl

valid_case-KnownActors_example :
    begin_step (new_run (validate two_steps).0) 5 ≢ refused (unknown_actor 1 (b'x' ∷ []))
valid_case-KnownActors_example =
    valid_case-KnownActors two_steps (new_run (validate two_steps).0) 5 1 (b'x' ∷ []) two_steps_fine
      starts
