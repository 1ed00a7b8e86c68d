-- ===== src/Agentapi/Jobs/Play.antt =====
-- Driving a run to its end (agentapi/jobs.go), against what the manager and the runs offer.
pub mod Ends
use deadlocker.Base.{
  ℕ, zero, suc, ◌+◌, ◌*◌, ◌≤◌, ◌<◌, ◌≡◌, ltb, Bool, true, false, ◌||◌, Option, none, some, List, [],
  ◌∷◌, Bytes, ◌⊎◌, if◌then◌else◌,
}
use deadlocker.Casedef.Types.{Case}
use deadlocker.Engine.Types.{
  StepResult, StepStatus, SqlError, step_blocked, deadlock, timeout, other,
}

-- What `Run.Step` returns: a step, `ErrNoMoreSteps`, an `ActorBlockedError`, or another error.
pub data StepReply : Type 0 where
  stepped no_more_steps actor_blocked : StepReply
  step_error : Bytes → StepReply

-- The manager and its runs, as the analyses see them. `W` is everything that changes: the runs, the
-- server, the clock and the analysis's context. `R` is a pointer to a run. `left` is the number of
-- steps that a run has still to submit: a step that is submitted takes one off, and nothing adds one.
pub record Runs (W R : Type 0) : Type 0 where
  pub start : W → Case → W × (Bytes ⊎ R)
  pub step : W → R → W × StepReply
  pub steps : W → R → List StepResult
  pub run_id : R → Bytes
  pub close_run : W → R → W
  pub now : W → ℕ
  pub wait : W → ℕ → W × Bool
  pub is_cancelled : W → Bool
  pub left : W → R → ℕ
  pub left-stepped : (w : W) (r : R) → (step w r).1 ≡ stepped → left (step w r).0 r < left w r
  pub left-step : (w : W) (r : R) → left (step w r).0 r ≤ left w r
  pub left-wait : (w : W) (r : R) (ms : ℕ) → left (wait w ms).0 r ≤ left w r

-- How `playAll` returns; `played` is its `nil`, `interrupted` the context's error.
pub data PlayEnd : Type 0 where
  played out_of_time interrupted out_of_fuel : PlayEnd
  play_error : Bytes → PlayEnd

abbrev pub max_stalls : ℕ
max_stalls = 80

module _ {W R : Type 0} (runs : Runs W R) where
  -- The `for` of `playAll`.
  unfoldable pub play : ℕ → ℕ → R → ℕ → W → W × PlayEnd
  play zero deadline r stalls w = (w, out_of_fuel)
  play (suc fuel) deadline r stalls w = elim (ltb deadline (runs.now w)) [
    | true ↦ (w, out_of_time)
    | false ↦
        let (w1, reply) = runs.step w r in
        elim reply [
          | stepped ↦ play fuel deadline r 0 w1
          | no_more_steps ↦ (w1, played)
          | step_error e ↦ (w1, play_error e)
          | actor_blocked ↦ elim (ltb max_stalls (stalls + 1)) [
            | true ↦ (w1, played)
            | false ↦
                let (w2, is_done) = runs.wait w1 250 in
                elim is_done [
                  | true ↦ (w2, interrupted)
                  | false ↦ play fuel deadline r (stalls + 1) w2
                ]
          ]
        ]
  ]

  -- Times are in milliseconds.
  unfoldable pub play_all : ℕ → R → W → W × PlayEnd
  unfolding play
  play_all budget r w = play (81 * (runs.left w r + 1)) (runs.now w + budget) r 0 w

-- The deadlocks, the timeouts and the blocked steps.
abbrev pub Counts : Type 0
Counts = ℕ × ℕ × ℕ

unfoldable pub is_blocked_status : StepStatus → Bool
is_blocked_status step_blocked = true
is_blocked_status _ = false

unfoldable pub count_error : Option SqlError → Counts → Counts
count_error none n = n
count_error (some e) (deadlocks, timeouts, blocked) = elim e.kind [
  | deadlock ↦ (deadlocks + 1, timeouts, blocked)
  | timeout ↦ (deadlocks, timeouts + 1, blocked)
  | other ↦ (deadlocks, timeouts, blocked)
]

unfoldable pub count_step : StepResult → Counts → Counts
count_step s (deadlocks, timeouts, blocked) = count_error s.error (
  deadlocks,
  timeouts,
  if s.was_blocked || is_blocked_status s.status then blocked + 1 else blocked,
)

unfoldable pub outcome_of_run : List StepResult → Counts → Counts
outcome_of_run [] n = n
outcome_of_run (s ∷ rest) n = outcome_of_run rest (count_step s n)
