-- ===== src/Agentapi/Jobs.antt =====
-- The background analyses, and the registry that keeps them (agentapi/jobs.go).
pub mod Registry
pub mod Play
pub mod Sweep
pub mod Shrink
use deadlocker.Base.{
  ℕ, ◌+◌, ltb, Bool, true, false, not, ◌||◌, Option, none, some, List, [], ◌∷◌, ◌++◌, Bytes, length,
  bytes_eq, if◌then◌else◌,
}
use deadlocker.Engine.Types.{StepStatus, ErrorKind, Verdict}
use deadlocker.Casedef.Types.{Expectation}

pub data JobStatus : Type 0 where
  running done failed cancelled : JobStatus

pub data JobKind : Type 0 where
  isolation_matrix version_matrix shrink : JobKind

-- An empty `Error` is `none`.
pub record MatrixCell : Type 0 where
  pub status : StepStatus
  pub verdict : Verdict
  pub error : Option ErrorKind
  pub blocked : Bool
  pub outcome : Bytes

pub record MatrixColumn : Type 0 where
  pub label : Bytes
  pub isolation : Bytes
  pub image : Bytes
  pub cells : List MatrixCell
  pub deadlocks : ℕ
  pub timeouts : ℕ
  pub blocked : ℕ
  pub error : Bytes
  pub run_id : Bytes

pub record MatrixResult : Type 0 where
  pub scenario_id : Bytes
  pub name : Bytes
  pub axis : Bytes
  pub axis_label : Bytes
  pub step_labels : List Bytes
  pub step_actors : List Bytes
  pub columns : List MatrixColumn
  pub summary : Bytes

pub record ShrinkStep : Type 0 where
  pub index : ℕ
  pub actor : Bytes
  pub accent : Bytes
  pub label : Bytes
  pub sql : Bytes
  pub expect : Expectation
  pub kept : Bool

pub record ShrinkResult : Type 0 where
  pub scenario_id : Bytes
  pub name : Bytes
  pub target : Bytes
  pub original : ℕ
  pub minimal : ℕ
  pub removed_labels : List Bytes
  pub steps : List ShrinkStep
  pub yaml : Bytes
  pub attempts : ℕ
  pub note : Bytes

-- `cancel` names the context that the job's cancel function ends.
pub record Job : Type 0 where
  pub id : Bytes
  pub kind : JobKind
  pub scenario_id : Bytes
  pub name : Bytes
  pub status : JobStatus
  pub progress : Bytes
  pub started : ℕ
  pub ended : Option ℕ
  pub error : Bytes
  pub matrix : Option MatrixResult
  pub shrink : Option ShrinkResult
  pub cancel : Option ℕ

-- `jobs` is the map, keyed by the ids it holds, and `order` has the ids, oldest first.
pub record Jobs : Type 0 where
  pub jobs : List (Bytes × Job)
  pub order : List Bytes

abbrev pub max_jobs : ℕ
max_jobs = 40

unfoldable pub new_jobs : Jobs
new_jobs = record { jobs = []; order = [] }

unfoldable pub find_job : List (Bytes × Job) → Bytes → Option Job
find_job [] k = none
find_job ((j, job) ∷ rest) k = if bytes_eq j k then some job else find_job rest k

unfoldable pub delete_job : List (Bytes × Job) → Bytes → List (Bytes × Job)
delete_job [] k = []
delete_job ((j, job) ∷ m) k =
    let rest = delete_job m k in if bytes_eq j k then rest else (j, job) ∷ rest

unfoldable pub set_job : List (Bytes × Job) → Bytes → Job → List (Bytes × Job)
set_job m k job = (k, job) ∷ delete_job m k

-- Drops the oldest job when there are too many.
unfoldable pub trim_jobs : List (Bytes × Job) → List Bytes → Jobs
trim_jobs m [] = record { jobs = m; order = [] }
trim_jobs m (oldest ∷ rest) =
    if ltb max_jobs (length (oldest ∷ rest))
    then record { jobs = delete_job m oldest; order = rest }
    else record { jobs = m; order = oldest ∷ rest }

unfoldable pub put : Jobs → Job → Jobs
put j job = elim (find_job j.jobs job.id) [
  | some _ ↦ record j { jobs = set_job j.jobs job.id job }
  | none ↦
      let t = trim_jobs j.jobs (j.order ++ (job.id ∷ [])) in
      record t { jobs = set_job t.jobs job.id job }
]

unfoldable pub is_running : JobStatus → Bool
is_running running = true
is_running _ = false

-- The context that is cancelled, and the report.
unfoldable pub cancel_job : Jobs → Bytes → Option ℕ × Bool
cancel_job j id = elim (find_job j.jobs id) [
  | none ↦ (none, false)
  | some job ↦ if is_running job.status then (job.cancel, true) else (none, false)
]

-- The jobs with these ids, last first.
unfoldable pub listed : List (Bytes × Job) → List Bytes → List Job
listed m [] = []
listed m (id ∷ ids) =
    let later = listed m ids in
    elim (find_job m id) [ none ↦ later | some job ↦ later ++ (job ∷ []) ]

unfoldable pub all : Jobs → List Job
all j = listed j.jobs j.order

unfoldable pub get : Jobs → Bytes → Option Job
get j id = find_job j.jobs id

unfoldable pub update : Jobs → Bytes → (Job → Job) → Jobs
update j id fn = elim (find_job j.jobs id) [
  | none ↦ j
  | some job ↦ record j { jobs = set_job j.jobs id (fn job) }
]
