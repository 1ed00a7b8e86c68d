-- ===== src/Engine/Manager/Tests.antt =====
-- A manager that starts a run and closes one.
use deadlocker.Base.{◌≡◌, ◌⊎◌, refl, false, none, some, [], ◌∷◌, Bytes, bytes_eq, if◌then◌else◌}
use deadlocker.Casedef.Types.{Case}
use deadlocker.Engine.Records.{RunInfo, has_key}
use deadlocker.Engine.Manager.{OpenRun, Manager, new_manager, find_run, start_async, close_run}
use deadlocker.Engine.Manager.Cap.{
  IsCapped, is_open, new_manager-IsCapped, start_async-IsCapped, close_run-IsCapped,
}

abbrev bare_case : Case
bare_case = record {
  id = [];
  name = [];
  category = [];
  description = [];
  tags = [];
  mysql = record {
    image = [];
    isolation = [];
    lock_wait_timeout = 0;
    deadlock_detect = none;
    vars = [];
    prepared = false;
  };
  docs = [];
  schema = [];
  seed = [];
  actors = [];
  steps = [];
  path = [];
  built_in = false;
  source = [];
  ephemeral = false;
  draft_id = [];
}

abbrev first_info : RunInfo
first_info = record {
  id = b'r' ∷ [];
  case_id = [];
  case_name = [];
  image = [];
  isolation = [];
  lock_wait_timeout = 0;
  prepared = false;
  started = 0;
  ephemeral = false;
  draft_id = [];
}

abbrev one_run : Manager
one_run = (start_async new_manager bare_case first_info 3).0

unknown_id : has_key new_manager.order first_info.id ≡ false
unfolding new_manager has_key
unknown_id = refl

one_run-IsCapped : IsCapped one_run
one_run-IsCapped =
    (start_async-IsCapped new_manager bare_case first_info 3 new_manager-IsCapped unknown_id).0

close_run-IsCapped_example :
    ((is_open one_run.runs (b'r' ∷ []) ≡ false) × (close_run one_run (b'r' ∷ []) 4 ≡ none))
    ⊎ ((m' : Manager) × (r : OpenRun) × (close_run one_run (b'r' ∷ []) 4 ≡ some (m', some r))
        × IsCapped m'
        × ((k : Bytes)
            → find_run m'.runs k
              ≡ (if bytes_eq (b'r' ∷ []) k then none else find_run one_run.runs k)))
close_run-IsCapped_example = close_run-IsCapped one_run (b'r' ∷ []) 4 one_run-IsCapped
