-- ===== src/Engine/Run/Finished.antt =====
-- The status of a run while its statements end (engine/run.go, `execute`).
use deadlocker.Base.{◌<◌, ◌≡◌, ◌⊎◌, true, length}
use deadlocker.Engine.Types.{Run, running}
use deadlocker.Engine.Sessions.{any_busy}

-- A running run has a step left, or an actor at work.
abbrev pub Progresses : Run → Type 0
Progresses r = r.status ≡ running → (r.cursor < length r.steps) ⊎ (any_busy r.actors ≡ true)
