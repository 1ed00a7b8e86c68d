-- ===== src/Agentapi/Jobs/Shrink/Ended.antt =====
-- How the reduction of a scenario leaves its job (agentapi/jobs.go).
use deadlocker.Base.{
  ℕ, zero, suc, ◌+◌, ◌≤◌, ◌≡◌, ◌⊎◌, inl, inr, refl, Bool, true, false, ◌&&◌, ltb, ◌==◌, Option,
  none, some, Bool-cases, [], Bytes, length, bytes_eq, arith,
}
use deadlocker.Casedef.Types.{Case}
use deadlocker.Casedef.Validate.{validate}
use deadlocker.Agentapi.Jobs.{Job, Jobs, ShrinkResult, done, failed, cancelled, get, update}
use deadlocker.Agentapi.Jobs.Registry.{IsKnown, get-update, update-IsKnown}
use deadlocker.Agentapi.Jobs.Play.{Runs}
use deadlocker.Agentapi.Jobs.Shrink.{
  Shrinking, remove_at, with_steps, goes_on, take_if, try_candidate, try_without, sweep_down,
  reduce_rounds, reduce, begin_shrink,
}
use deadlocker.Agentapi.Jobs.Shrink.Reduction.{reduce-IsReduction}
use deadlocker.Agentapi.Jobs.Shrink.Handler.{
  set_cancel, fail_job, nothing_to_reduce, finish_shrink, shrink_result, reduce_to, with_target,
  probe_started, probe, run_shrink,
}

module _ {W R : Type 0} (runs : Runs W R) (id target : Bytes) where
  take_if-IsKnown :
      (i : ℕ) (c : Case) (st : Shrinking W) (reply : Option Bool)
      → IsKnown id st.jobs
      → IsKnown id (take_if i c st reply).jobs
  unfolding take_if
  take_if-IsKnown i c st none known = known
  take_if-IsKnown i c st (some false) known = known
  take_if-IsKnown i c st (some true) known = known

  try_without-IsKnown :
      (i : ℕ) (st : Shrinking W)
      → IsKnown id st.jobs
      → IsKnown id (try_without runs id target i st).jobs
  unfolding try_without try_candidate
  try_without-IsKnown i st known =
      let steps = remove_at i st.current.steps in
      let (candidate, problems) = validate (with_steps st.current steps) in
      elim (Bool-cases (ltb 0 (length steps) && (length problems == 0))) [
        | inl runs_it ↦
            rw (runs_it, try_without) (take_if-IsKnown i _ _ _ (update-IsKnown st.jobs id _ known))
        | inr passed ↦ rw (passed, try_without) known
      ]

  sweep_down-IsKnown :
      (i : ℕ) (st : Shrinking W)
      → IsKnown id st.jobs
      → IsKnown id (sweep_down runs id target i st).jobs
  unfolding sweep_down
  sweep_down-IsKnown zero st known = known
  sweep_down-IsKnown (suc i) st known = elim (Bool-cases (goes_on runs st)) [
    | inl on ↦
        rw (on, sweep_down)
          (sweep_down-IsKnown i (try_without runs id target i st) (try_without-IsKnown i st known))
    | inr off ↦ rw (off, sweep_down) known
  ]

  rounds-IsKnown :
      (fuel : ℕ) (st : Shrinking W)
      → IsKnown id st.jobs
      → IsKnown id (reduce_rounds runs id target fuel st).jobs
  unfolding reduce_rounds
  rounds-IsKnown zero st known = known
  rounds-IsKnown (suc fuel) st known = elim (Bool-cases (st.changed && goes_on runs st)) [
    | inl on ↦
        rw (on, reduce_rounds)
          (rounds-IsKnown fuel _
            (sweep_down-IsKnown (length st.current.steps) (record st { changed = false }) known))
    | inr off ↦ rw (off, reduce_rounds) known
  ]

-- The job has ended: it failed, or it has a result that is no longer than the original.
abbrev pub HasEnded : Case → Bytes → Jobs → Type 0
HasEnded base id jobs =
    (job : Job) × (get jobs id ≡ some job)
    × ((now : ℕ) × (job.ended ≡ some now))
    × ((job.status ≡ failed)
        ⊎ (((job.status ≡ done) ⊎ (job.status ≡ cancelled))
            × ((res : ShrinkResult) × (job.shrink ≡ some res)
                × (res.original ≡ length base.steps)
                × (res.minimal ≤ res.original))))

finish-status :
    (aborted : Bool) (res : ShrinkResult) (now : ℕ) (job : Job)
    → ((finish_shrink aborted res now job).status ≡ done)
      ⊎ ((finish_shrink aborted res now job).status ≡ cancelled)
unfolding finish_shrink
finish-status true res now job = inr refl
finish-status false res now job = inl refl

module _ {W R : Type 0} (runs : Runs W R) (marshal : Case → Option Bytes) where
  reduce_to-HasEnded :
      (id : Bytes) (base : Case) (jobs : Jobs) (w : W) (target : Bytes)
      → 1 ≤ length base.steps
      → IsKnown id jobs
      → HasEnded base id (reduce_to runs marshal id base jobs w target).0
  unfolding reduce_to reduce begin_shrink shrink_result finish_shrink
  reduce_to-HasEnded id base jobs w target some_step known =
      let st = reduce runs id target (begin_shrink base jobs w) in
      let (job, found) = rounds-IsKnown runs id target (length base.steps + 1) _ known in
      let res = shrink_result runs marshal base target st in
      let aborted = runs.is_cancelled st.world in
      let now = runs.now st.world in
      (
        finish_shrink aborted res now job,
        get-update st.jobs id (finish_shrink aborted res now) job found,
        (now, refl),
        inr (
          finish-status aborted res now job,
          (
            res,
            refl,
            refl,
            omega (arith, (reduce-IsReduction runs base id target jobs w some_step).all_counted),
          ),
        ),
      )

  with_target-HasEnded :
      (id : Bytes) (base : Case) (jobs : Jobs) (w : W) (target : Option Bytes)
      → 1 ≤ length base.steps
      → IsKnown id jobs
      → HasEnded base id (with_target runs marshal id base jobs w target).0
  unfolding with_target nothing_to_reduce
  with_target-HasEnded id base jobs w (some target) some_step known =
      reduce_to-HasEnded id base jobs w target some_step known
  with_target-HasEnded id base jobs w none some_step (job, found) = (
    nothing_to_reduce base (runs.now w) job,
    get-update jobs id (nothing_to_reduce base (runs.now w)) job found,
    (runs.now w, refl),
    inr (inl refl, (_, refl, refl, omega arith)),
  )

  probe_started-HasEnded :
      (id : Bytes) (base : Case) (jobs : Jobs) (w : W) (started : Bytes ⊎ R)
      → 1 ≤ length base.steps
      → IsKnown id jobs
      → HasEnded base id (probe_started runs marshal id base jobs w started).0
  unfolding probe_started fail_job
  probe_started-HasEnded id base jobs w (inl error) some_step (job, found) = (
    fail_job error (runs.now w) job,
    get-update jobs id (fail_job error (runs.now w)) job found,
    (runs.now w, refl),
    inl refl,
  )
  probe_started-HasEnded id base jobs w (inr r) some_step known =
      with_target-HasEnded id base jobs _ _ some_step known

  -- For a scenario with steps whose job is in the registry, whatever the target, the runs and a
  -- cancellation do: the job does not stay running. It ends with a time, as failed, or as done or cancelled
  -- with a result that counts the original's steps and at most as many that are left.
  pub run_shrink-HasEnded :
      (id : Bytes) (base : Case) (target : Bytes) (ctx : ℕ) (jobs : Jobs) (w : W) (job : Job)
      → 1 ≤ length base.steps
      → get jobs id ≡ some job
      → HasEnded base id (run_shrink runs marshal id base target ctx jobs w).0
  unfolding run_shrink probe
  run_shrink-HasEnded id base target ctx jobs w job some_step found =
      let jobs1 = update jobs id (set_cancel ctx) in
      let known = update-IsKnown jobs id (set_cancel ctx) (job, found) in
      elim (Bool-cases (bytes_eq target [])) [
        | inl empty ↦
            rw (empty, run_shrink) (probe_started-HasEnded id base jobs1 _ _ some_step known)
        | inr given ↦
            rw (given, run_shrink) (reduce_to-HasEnded id base jobs1 w target some_step known)
      ]
