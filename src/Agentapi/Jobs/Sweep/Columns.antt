-- ===== src/Agentapi/Jobs/Sweep/Columns.antt =====
-- Which columns a sweep has, and how it leaves its job (agentapi/jobs.go).
use deadlocker.Base.{ℕ, ◌≡◌, ◌⊎◌, some, List, Bytes, map, take}
use deadlocker.Casedef.Types.{Case}
use deadlocker.Agentapi.Jobs.{Job, Jobs, MatrixColumn, done, cancelled, get}
use deadlocker.Agentapi.Jobs.Play.{Runs}
use deadlocker.Agentapi.Jobs.Sweep.{Axis, matrix_result}

abbrev pub labels : List MatrixColumn → List Bytes
labels = map (λ col. col.label)

module _ {W R : Type 0} (runs : Runs W R) (id : Bytes) (axis : Axis) (base : Case) where
  -- The job has ended with the matrix of these columns: done with a column for each value, or cancelled
  -- with columns for the first of them.
  abbrev pub HasColumns : List Bytes → Jobs → Type 0
  HasColumns values jobs =
      (job : Job) × (cols : List MatrixColumn) × (get jobs id ≡ some job)
      × ((now : ℕ) × (job.ended ≡ some now))
      × (job.matrix ≡ some (matrix_result axis base cols))
      × (((job.status ≡ done) × (labels cols ≡ values))
          ⊎ ((job.status ≡ cancelled) × ((k : ℕ) × (labels cols ≡ take k values))))
