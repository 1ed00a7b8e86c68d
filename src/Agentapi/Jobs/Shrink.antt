-- ===== src/Agentapi/Jobs/Shrink.antt =====
-- Reducing a scenario to the steps that matter (agentapi/jobs.go).
pub mod Handler
pub mod Ended
pub mod Reduction
pub mod Minimal
use deadlocker.Base.{
  ℕ, zero, suc, ◌+◌, ltb, ◌==◌, ◌≡◌, Bool, true, false, not, ◌&&◌, Option, none, some, List, [],
  ◌∷◌, ◌++◌, Bytes, length, bytes_eq, str, decimal, inl, inr, if◌then◌else◌,
}
use deadlocker.Casedef.Types.{Case, Step}
use deadlocker.Casedef.Validate.{validate}
use deadlocker.Agentapi.Jobs.{Job, Jobs, update}
use deadlocker.Agentapi.Jobs.Play.{Runs, PlayEnd, played, Counts, play_all, outcome_of_run}

-- Without the element at an index.
unfoldable pub remove_at {ℓ} : {A : Type ℓ} → ℕ → List A → List A
remove_at i [] = []
remove_at zero (x ∷ xs) = xs
remove_at (suc i) (x ∷ xs) = x ∷ remove_at i xs

unfoldable pub label_at : List Step → ℕ → Bytes
label_at [] i = []
label_at (s ∷ rest) zero = s.label
label_at (s ∷ rest) (suc i) = label_at rest i

unfoldable pub shows_target : Bytes → Counts → Bool
shows_target target (deadlocks, timeouts, blocked) =
    if bytes_eq target (str "deadlock")
    then ltb 0 deadlocks
    else if bytes_eq target (str "timeout")
    then ltb 0 timeouts
    else ltb 0 blocked

-- A copy of the case with other steps: what `cloneCase` copies is a value here.
unfoldable pub with_steps : Case → List Step → Case
with_steps c steps = record c { steps = steps }

unfoldable pub set_progress : Bytes → Job → Job
set_progress text job = record job { progress = text }

unfoldable pub attempt_text : ℕ → ℕ → Bytes
attempt_text attempts n =
    str "attempt " ++ decimal attempts ++ str ": " ++ decimal n ++ str " step(s) remaining"

abbrev pub max_attempts : ℕ
max_attempts = 80

-- The variables of the loops; `kept` has the places in the original of the steps that are left.
pub record Shrinking (W : Type 0) : Type 0 where
  pub current : Case
  pub kept : List ℕ
  pub attempts : ℕ
  pub changed : Bool
  pub removed : List Bytes
  pub jobs : Jobs
  pub world : W

-- The numbers from one on.
unfoldable pub upto : ℕ → ℕ → List ℕ
upto first zero = []
upto first (suc n) = first ∷ upto (suc first) n

unfoldable pub begin_shrink : {W : Type 0} → Case → Jobs → W → Shrinking W
begin_shrink base jobs w = record {
  current = base;
  kept = upto 0 (length base.steps);
  attempts = 0;
  changed = true;
  removed = [];
  jobs = jobs;
  world = w;
}

-- A candidate that was run: it is taken when it still shows the target.
unfoldable pub take_if : {W : Type 0} → ℕ → Case → Shrinking W → Option Bool → Shrinking W
take_if i candidate st (some true) = record st {
  removed = st.removed ++ (label_at st.current.steps i ∷ []);
  current = candidate;
  kept = remove_at i st.kept;
  changed = true;
}
take_if i candidate st _ = st

module _ {W R : Type 0} (runs : Runs W R) where
  -- Whether a candidate still shows the target; `none` is the error of a run that did not start.
  unfoldable pub reproduces : W → Case → Bytes → W × Option Bool
  reproduces w c target =
      let (w1, started) = runs.start w (record c { ephemeral = true }) in
      elim started [
        | inl e ↦ (w1, none)
        | inr r ↦
            let (w2, end) = play_all runs 120000 r w1 in
            let shown = shows_target target (outcome_of_run (runs.steps w2 r) (0, 0, 0)) in
            (runs.close_run w2 r, some (elim end [ played ↦ shown | _ ↦ false ]))
      ]

  -- The condition that both loops share.
  unfoldable pub goes_on : Shrinking W → Bool
  goes_on st = ltb st.attempts max_attempts && not (runs.is_cancelled st.world)

  unfoldable pub try_candidate : Bytes → Bytes → ℕ → Case → Shrinking W → Shrinking W
  try_candidate id target i candidate st =
      let attempts = st.attempts + 1 in
      let (w, reply) = reproduces st.world candidate target in
      let st1 : Shrinking W = record st {
        attempts = attempts;
        jobs = update st.jobs id (set_progress (attempt_text attempts (length candidate.steps)));
        world = w;
      } in
      take_if i candidate st1 reply

  -- The body of the inner loop. A candidate without steps, and one that is not valid, are passed over.
  unfoldable pub try_without : Bytes → Bytes → ℕ → Shrinking W → Shrinking W
  try_without id target i st =
      let steps = remove_at i st.current.steps in
      let (candidate, problems) = validate (with_steps st.current steps) in
      if ltb 0 (length steps) && (length problems == 0)
      then try_candidate id target i candidate st
      else st

  -- The inner loop, from index `n - 1` down.
  unfoldable pub sweep_down : Bytes → Bytes → ℕ → Shrinking W → Shrinking W
  sweep_down id target zero st = st
  sweep_down id target (suc i) st = elim (goes_on st) [
    | true ↦ sweep_down id target i (try_without id target i st)
    | false ↦ st
  ]

  -- The outer loop; the fuel bounds its rounds.
  unfoldable pub reduce_rounds : Bytes → Bytes → ℕ → Shrinking W → Shrinking W
  reduce_rounds id target zero st = st
  reduce_rounds id target (suc fuel) st = elim (st.changed && goes_on st) [
    | true ↦
        reduce_rounds id target fuel
          (sweep_down id target (length st.current.steps) (record st { changed = false }))
    | false ↦ st
  ]

  unfoldable pub reduce : Bytes → Bytes → Shrinking W → Shrinking W
  reduce id target st = reduce_rounds id target (length st.current.steps + 1) st
