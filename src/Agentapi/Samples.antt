-- ===== src/Agentapi/Samples.antt =====
-- A scenario, and runs of it that wait as long as they have more than one step.
use deadlocker.Base.{
  ℕ, zero, suc, ◌+◌, ◌*◌, ◌≤◌, ◌<◌, ◌≡◌, refl, ltb, Bool, true, false, Option, none, some, List, [],
  ◌∷◌, Bytes, length, inr, if◌then◌else◌, arith,
}
use deadlocker.Casedef.Types.{Case, Step, expect_any}
use deadlocker.Engine.Types.{StepResult, step_done, no_verdict, LockSnapshot, LockWait}
use deadlocker.Agentapi.Jobs.{Job, JobKind, running}
use deadlocker.Agentapi.Jobs.Play.{
  Runs, StepReply, stepped, no_more_steps, played, play, play_all, outcome_of_run,
}
use deadlocker.Agentapi.Jobs.Shrink.{reproduces, shows_target}

abbrev pub step : ℕ → Step
step n = record {
  actor = b'a' ∷ [];
  label = n ∷ [];
  sql = b'x' ∷ [];
  args = [];
  note = [];
  expect = expect_any;
}

abbrev pub three_steps : Case
three_steps = record {
  id = b'c' ∷ [];
  name = b'n' ∷ [];
  category = [];
  description = [];
  tags = [];
  mysql = record {
    image = [];
    isolation = [];
    lock_wait_timeout = 0;
    deadlock_detect = none;
    vars = [];
    prepared = false;
  };
  docs = [];
  schema = [];
  seed = [];
  actors = record { id = b'a' ∷ []; name = []; accent = [] } ∷ [];
  steps = step 1 ∷ step 2 ∷ step 3 ∷ [];
  path = [];
  built_in = false;
  source = [];
  ephemeral = false;
  draft_id = [];
}

abbrev waited : StepResult
waited = record {
  index = 0;
  actor = b'a' ∷ [];
  actor_name = [];
  accent = [];
  label = [];
  sql = [];
  note = [];
  status = step_done;
  submitted_at = none;
  ended_at = none;
  duration_ms = 0;
  columns = [];
  rows = [];
  rows_truncated = false;
  row_count = 0;
  rows_affected = 0;
  last_insert_id = 0;
  error = none;
  blocked_by = [];
  wait_explain = [];
  was_blocked = true;
  plan = [];
  expect = expect_any;
  actual = expect_any;
  verdict = no_verdict;
  verdict_note = [];
}

abbrev results : Case → List StepResult
results c = if ltb 1 (length c.steps) then waited ∷ [] else []

abbrev submit_one : ℕ → ℕ × StepReply
submit_one zero = (zero, no_more_steps)
submit_one (suc n) = (n, stepped)

pub submit_one-stepped : (n : ℕ) → (submit_one n).1 ≡ stepped → (submit_one n).0 < n
submit_one-stepped zero e = absurd (ground arith)
submit_one-stepped (suc n) e = omega arith

pub submit_one_le : (n : ℕ) → (submit_one n).0 ≤ n
submit_one_le zero = omega arith
submit_one_le (suc n) = omega arith

-- The state is the number of steps that the run has left.
abbrev pub sample_runs : Runs ℕ Case
sample_runs = record {
  start = λ w c. (length c.steps, inr c);
  step = λ w r. submit_one w;
  steps = λ w r. results r;
  run_id = λ r. r.id;
  close_run = λ w r. w;
  now = λ w. 0;
  wait = λ w ms. (w, false);
  is_cancelled = λ w. false;
  left = λ w r. w;
  left-stepped = λ w r e. submit_one-stepped w e;
  left-step = λ w r. submit_one_le w;
  left-wait = λ w r ms. omega arith;
}

sample_play :
    (fuel deadline : ℕ) (r : Case) (stalls w : ℕ)
    → w < fuel
    → play sample_runs fuel deadline r stalls w ≡ (0, played)
unfolding play
sample_play zero deadline r stalls w lt = absurd (omega arith)
sample_play (suc fuel) deadline r stalls zero lt = ground arith
sample_play (suc fuel) deadline r stalls (suc w) lt =
    ground (arith, sample_play fuel deadline r 0 w (omega arith))

abbrev pub sample_reply : Bytes → Case → Option Bool
sample_reply target c = some (shows_target target (outcome_of_run (results c) (0, 0, 0)))

pub sample_stable :
    (target : Bytes) (w : ℕ) (c : Case)
    → (reproduces sample_runs w c target).1 ≡ sample_reply target c
unfolding reproduces play_all
sample_stable target w c =
    rw
      (sample_play (81 * (length c.steps + 1)) 120000 (record c { ephemeral = true }) 0
        (length c.steps) (omega arith))
      refl

abbrev pub sample_job : Job
sample_job = record {
  id = b'j' ∷ [];
  kind = JobKind.shrink;
  scenario_id = b'c' ∷ [];
  name = b'n' ∷ [];
  status = running;
  progress = [];
  started = 0;
  ended = none;
  error = [];
  matrix = none;
  shrink = none;
  cancel = none;
}

abbrev wait_of : ℕ → ℕ → LockWait
wait_of n m = record {
  waiting_actor = n ∷ [];
  blocking_actor = m ∷ [];
  waiting_lock_id = [];
  blocking_lock_id = [];
  waiting_lock = none;
  blocking_lock = none;
}

-- Two actors that wait for each other, and a third that waits for one of them.
abbrev pub deadlocked : LockSnapshot
deadlocked = record { locks = []; waits = wait_of 3 1 ∷ wait_of 1 2 ∷ wait_of 2 1 ∷ [] }
