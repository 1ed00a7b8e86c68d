-- ===== src/Agentapi/Tests.antt =====
-- The hub, the analyses and the lock view at concrete inputs.
use deadlocker.Base.{
  ℕ, ◌≡◌, ◌≢◌, ◌≤◌, ◌↔◌, refl, true, some, none, List, [], ◌∷◌, Bytes, length, str, bytes_eq,
  trim_space, arith,
}
use deadlocker.Casedef.Types.{Case, is_valid}
use deadlocker.Casedef.Validate.{
  validate, validate_actors, validate_steps, validate_docs, problem_if, is_empty_text, is_seen,
  actor_problems, step_problems, doc_problems, isolation_problems, fill_actor, fill_step,
  fill_mysql,
}
use deadlocker.Feed.{Item}
use deadlocker.Feed.Retained.{bodies}
use deadlocker.Agentapi.Hub.{Hub, new_hub, subscribe}
use deadlocker.Agentapi.Hub.Replay.{HubCall, publishes, subscribes, cancels, calls, calls-Backlog}
use deadlocker.Agentapi.Jobs.{
  Jobs, MatrixResult, done, new_jobs, find_job, set_job, trim_jobs, put, all, get,
}
use deadlocker.Agentapi.Jobs.Registry.{
  JobCall, puts, updates, job_calls, IsOrdered, ids, backwards, job_calls-IsOrdered,
}
use deadlocker.Agentapi.Jobs.Play.{
  out_of_fuel, play_all, play, outcome_of_run, count_step, count_error, is_blocked_status,
}
use deadlocker.Agentapi.Jobs.Play.Ends.{play_all-ends}
use deadlocker.Agentapi.Jobs.Shrink.{
  reduce, reduce_rounds, sweep_down, try_without, try_candidate, take_if, goes_on, reproduces,
  begin_shrink, shows_target, remove_at, with_steps, label_at, upto,
}
use deadlocker.Agentapi.Jobs.Shrink.Reduction.{IsReduction, reduce-IsReduction}
use deadlocker.Agentapi.Jobs.Shrink.Minimal.{
  IsVerified, is_candidate, without, reduce-IsVerified, reduce-IsMinimal,
}
use deadlocker.Agentapi.Jobs.Shrink.Handler.{run_shrink}
use deadlocker.Agentapi.Jobs.Shrink.Ended.{HasEnded, run_shrink-HasEnded}
use deadlocker.Agentapi.Jobs.Sweep.{by_isolation, matrix_result, run_value}
use deadlocker.Agentapi.Locks.{lock_view}
use deadlocker.Agentapi.Locks.Waits.{WaitChain, lock_view-cycle}
use deadlocker.Agentapi.Samples.{
  three_steps, sample_runs, sample_reply, sample_stable, sample_job, deadlocked,
}

abbrev activity : ℕ → Item ℕ
activity n = record { seq = 0; at = none; body = n }

abbrev hub_calls : List (HubCall ℕ)
hub_calls =
    publishes 1 (activity 7)
    ∷ subscribes 1
    ∷ publishes 2 (activity 8)
    ∷ cancels 0
    ∷ publishes 3 (activity 9)
    ∷ []

calls-Backlog_example :
    (h : Hub ℕ) × (calls new_hub hub_calls ≡ some h)
    × (h.seq ≡ 3)
    × (length h.history ≤ 500)
    × (bodies (subscribe h 1).2 ≡ 8 ∷ 9 ∷ [])
calls-Backlog_example = calls-Backlog hub_calls 1 (omega arith)

abbrev job_changes : List JobCall
job_changes = puts sample_job ∷ updates sample_job.id (λ job. record job { status = done }) ∷ []

job_calls-IsOrdered_example :
    IsOrdered (job_calls new_jobs job_changes)
    × (ids (all (job_calls new_jobs job_changes))
        ≡ backwards (job_calls new_jobs job_changes).order)
job_calls-IsOrdered_example = job_calls-IsOrdered job_changes (tt, (λ job. refl, tt))

play_all-ends_example : (play_all sample_runs 1000 three_steps 3).1 ≢ out_of_fuel
play_all-ends_example = play_all-ends sample_runs 1000 three_steps 3

abbrev blocks : Bytes
blocks = b'b' ∷ []

abbrev jobs : Jobs
jobs = put new_jobs sample_job

reduce-IsReduction_example :
    IsReduction three_steps
      (reduce sample_runs sample_job.id blocks (begin_shrink three_steps jobs 0))
reduce-IsReduction_example =
    reduce-IsReduction sample_runs three_steps sample_job.id blocks jobs 0 (omega arith)

reduce-IsVerified_example :
    IsVerified sample_runs sample_job.id blocks
      (sample_reply blocks)
      (sample_stable blocks)
      three_steps
      (reduce sample_runs sample_job.id blocks (begin_shrink three_steps jobs 0)).current
reduce-IsVerified_example =
    reduce-IsVerified sample_runs sample_job.id blocks (sample_reply blocks) (sample_stable blocks)
      three_steps jobs 0

abbrev shrunk : Case
shrunk = (reduce sample_runs sample_job.id blocks (begin_shrink three_steps jobs 0)).current

-- The reduction leaves two steps, and leaving out one more was tried.
shrunk_facts :
    (goes_on sample_runs (reduce sample_runs sample_job.id blocks (begin_shrink three_steps jobs 0))
      ≡ true)
    × (length shrunk.steps ≡ 2)
    × (is_candidate shrunk 0 ≡ true)
unfolding reduce reduce_rounds sweep_down try_without try_candidate take_if goes_on reproduces
    begin_shrink play_all play outcome_of_run count_step count_error shows_target remove_at
    with_steps label_at upto bytes_eq str is_blocked_status validate validate_actors validate_steps
    validate_docs problem_if is_empty_text is_seen actor_problems step_problems doc_problems
    isolation_problems trim_space is_valid fill_actor fill_step fill_mysql
shrunk_facts = (refl, refl, refl)

reduce-IsMinimal_example : sample_reply blocks (without shrunk 0) ≢ some true
reduce-IsMinimal_example =
    reduce-IsMinimal sample_runs sample_job.id blocks (sample_reply blocks) (sample_stable blocks)
      three_steps jobs 0 shrunk_facts.0 0 (omega (arith, shrunk_facts.1)) shrunk_facts.2

job_known : get jobs sample_job.id ≡ some sample_job
unfolding get put new_jobs find_job trim_jobs set_job bytes_eq
job_known = refl

run_shrink-HasEnded_example :
    HasEnded three_steps sample_job.id
      (run_shrink sample_runs (λ c. none) sample_job.id three_steps [] 7 jobs 0).0
run_shrink-HasEnded_example =
    run_shrink-HasEnded sample_runs (λ c. none) sample_job.id three_steps [] 7 jobs 0 sample_job
      (omega arith) job_known

abbrev matrix : MatrixResult
matrix = matrix_result by_isolation three_steps (
    (run_value sample_runs by_isolation three_steps blocks 0).1
    ∷ (run_value sample_runs by_isolation (record three_steps { steps = [] }) blocks 0).1
    ∷ [])

lock_view-cycle_example :
    ((lock_view deadlocked).cycle ≡ true) ↔ ((n : Bytes) × WaitChain deadlocked.waits n n)
lock_view-cycle_example = lock_view-cycle deadlocked
