-- ===== src/Agentapi/Jobs/Shrink/Handler.antt =====
-- The analysis that reduces a scenario, from its start to its result (agentapi/jobs.go).
use deadlocker.Base.{
  ℕ, ◌+◌, ltb, ◌==◌, Bool, true, false, ◌||◌, Option, none, some, List, [], ◌∷◌, ◌++◌, Bytes,
  length, bytes_eq, str, decimal, trim_space, ◌⊎◌, inl, inr, text_before, sort_by, if◌then◌else◌,
}
use deadlocker.Casedef.Types.{Case, Step, Actor}
use deadlocker.Agentapi.Jobs.{
  Job, Jobs, JobKind, ShrinkStep, ShrinkResult, running, done, failed, cancelled, put, update,
}
use deadlocker.Agentapi.Jobs.Play.{Runs, Counts, play_all, outcome_of_run}
use deadlocker.Agentapi.Jobs.Shrink.{Shrinking, reduce, begin_shrink}

-- What the handlers that start an analysis put into the registry.
unfoldable pub new_job : Bytes → JobKind → Case → ℕ → Bytes → Job
new_job id kind base now progress = record {
  id = id;
  kind = kind;
  scenario_id = base.id;
  name = base.name;
  status = running;
  progress = progress;
  started = now;
  ended = none;
  error = [];
  matrix = none;
  shrink = none;
  cancel = none;
}

unfoldable pub start_shrink : Jobs → Bytes → Case → ℕ → Jobs
start_shrink jobs id base now =
    put jobs (new_job id JobKind.shrink base now (str "measuring the original"))

unfoldable pub set_cancel : ℕ → Job → Job
set_cancel ctx job = record job { cancel = some ctx }

unfoldable pub fail_job : Bytes → ℕ → Job → Job
fail_job error now job = record job { status = failed; ended = some now; error = error }

-- The outcome to preserve, if there is one.
unfoldable pub target_of : Counts → Option Bytes
target_of (deadlocks, timeouts, blocked) =
    if ltb 0 deadlocks
    then some (str "deadlock")
    else if ltb 0 timeouts
    then some (str "timeout")
    else if ltb 0 blocked
    then some (str "blocks")
    else none

unfoldable pub nothing_to_reduce : Case → ℕ → Job → Job
nothing_to_reduce base now job = record job {
  status = done;
  ended = some now;
  progress = str "nothing to reduce";
  shrink = some (record {
    scenario_id = base.id;
    name = base.name;
    target = [];
    original = length base.steps;
    minimal = length base.steps;
    removed_labels = [];
    steps = [];
    yaml = [];
    attempts = 0;
    note =
        str
          "This scenario neither blocks nor deadlocks, so there is no behaviour to preserve while removing steps.";
  });
}

unfoldable pub has_place : List ℕ → ℕ → Bool
has_place [] i = false
has_place (k ∷ ks) i = k == i || has_place ks i

-- The map of accents: the last actor with an id gives its accent.
unfoldable pub accent_of : List Actor → Bytes → Bytes → Bytes
accent_of [] id found = found
accent_of (a ∷ rest) id found = accent_of rest id (if bytes_eq a.id id then a.accent else found)

unfoldable pub mark_steps : List Actor → List ℕ → ℕ → List Step → List ShrinkStep
mark_steps actors kept i [] = []
mark_steps actors kept i (s ∷ rest) =
    record {
      index = i + 1;
      actor = s.actor;
      accent = accent_of actors s.actor [];
      label = s.label;
      sql = trim_space s.sql;
      expect = s.expect;
      kept = has_place kept i;
    }
    ∷ mark_steps actors kept (i + 1) rest

unfoldable pub reduction_note : ℕ → ℕ → Bytes → Bytes
reduction_note original minimal target =
    if minimal == original
    then str "Every step turned out to be necessary: removing any one of them stops the "
      ++ target
      ++ str " from happening."
    else str "Reduced from "
      ++ decimal original
      ++ str " steps to "
      ++ decimal minimal
      ++ str " while still producing a "
      ++ target
      ++ str "."

unfoldable pub or_nothing : Option Bytes → Bytes
or_nothing none = []
or_nothing (some text) = text

unfoldable pub finish_shrink : Bool → ShrinkResult → ℕ → Job → Job
finish_shrink aborted res now job = record job {
  status = if aborted then cancelled else done;
  progress =
      if aborted
      then str "stopped after " ++ decimal res.attempts ++ str " attempt(s)"
      else str "finished";
  ended = some now;
  shrink = some res;
}

-- `marshal` is `casedef.Marshal`, which prints YAML; `none` is its error.
module _ {W R : Type 0} (runs : Runs W R) (marshal : Case → Option Bytes) where
  unfoldable pub shrink_result : Case → Bytes → Shrinking W → ShrinkResult
  shrink_result base target st = record {
    scenario_id = base.id;
    name = base.name;
    target = target;
    original = length base.steps;
    minimal = length st.current.steps;
    removed_labels = sort_by text_before st.removed;
    steps = mark_steps base.actors st.kept 0 base.steps;
    yaml = or_nothing (marshal (record (st.current) { id = []; path = [] }));
    attempts = st.attempts;
    note = reduction_note (length base.steps) (length st.current.steps) target;
  }

  -- From the loops on. The last component is the summary of the activity that is published.
  unfoldable pub reduce_to : Bytes → Case → Jobs → W → Bytes → Jobs × W × Option Bytes
  reduce_to id base jobs w target =
      let st = reduce runs id target (begin_shrink base jobs w) in
      let res = shrink_result base target st in
      let aborted = runs.is_cancelled st.world in
      (
        update st.jobs id (finish_shrink aborted res (runs.now st.world)),
        st.world,
        some ((if aborted then str "shrink aborted: " else []) ++ res.note),
      )

  unfoldable pub with_target : Bytes → Case → Jobs → W → Option Bytes → Jobs × W × Option Bytes
  with_target id base jobs w none = (update jobs id (nothing_to_reduce base (runs.now w)), w, none)
  with_target id base jobs w (some target) = reduce_to id base jobs w target

  unfoldable pub probe_started : Bytes → Case → Jobs → W → Bytes ⊎ R → Jobs × W × Option Bytes
  probe_started id base jobs w (inl error) = (update jobs id (fail_job error (runs.now w)), w, none)
  probe_started id base jobs w (inr r) =
      let w1 = (play_all runs 180000 r w).0 in
      let found = outcome_of_run (runs.steps w1 r) (0, 0, 0) in
      with_target id base jobs (runs.close_run w1 r) (target_of found)

  -- Without a target, a run of the original gives it.
  unfoldable pub probe : Bytes → Case → Jobs → W → Jobs × W × Option Bytes
  probe id base jobs w =
      let (w1, started) = runs.start w (record base { ephemeral = true }) in
      probe_started id base jobs w1 started

  unfoldable pub run_shrink : Bytes → Case → Bytes → ℕ → Jobs → W → Jobs × W × Option Bytes
  run_shrink id base target ctx jobs w =
      let jobs1 = update jobs id (set_cancel ctx) in
      if bytes_eq target [] then probe id base jobs1 w else reduce_to id base jobs1 w target
