-- ===== src/Engine/Manager.antt =====
-- The open runs (engine/manager.go). Preparing a run, and closing its connections, happens outside;
-- `Closed` is what a call hands to `Run.Close`.
pub mod Cap
mod Tests
use deadlocker.Base.{
  ℕ, zero, suc, ◌+◌, ◌%◌, leb, Bool, true, false, not, ◌&&◌, Option, none, some, List, [], ◌∷◌,
  ◌++◌, Bytes, length, bytes_eq, str, get_or, map, if◌then◌else◌,
}
use deadlocker.Casedef.Types.{Case}
use deadlocker.Engine.Types.{Run}
use deadlocker.Engine.Run.{new_run, close}
use deadlocker.Engine.Records.{RunInfo, History, new_history, snapshot_record, put}

abbrev pub max_runs : ℕ
max_runs = 10

-- A run and what its state says besides; its id is `info.id`.
pub record OpenRun : Type 0 where
  pub run : Run
  pub info : RunInfo

-- `runs` is the map, and `order` has its ids, oldest first.
pub record Manager : Type 0 where
  pub runs : List OpenRun
  pub order : List Bytes
  pub history : History

unfoldable pub new_manager : Manager
new_manager = record { runs = []; order = []; history = new_history }

unfoldable pub find_run : List OpenRun → Bytes → Option OpenRun
find_run [] k = none
find_run (r ∷ rs) k = if bytes_eq r.info.id k then some r else find_run rs k

unfoldable pub delete_run : List OpenRun → Bytes → List OpenRun
delete_run [] k = []
delete_run (r ∷ rs) k =
    let rest = delete_run rs k in if bytes_eq r.info.id k then rest else r ∷ rest

-- The first id that is equal goes.
unfoldable pub remove_first : List Bytes → Bytes → List Bytes
remove_first [] k = []
remove_first (x ∷ xs) k = let rest = remove_first xs k in if bytes_eq x k then xs else x ∷ rest

-- The record of a run as it is now.
unfoldable pub keep_record : Manager → OpenRun → ℕ → Manager
keep_record m r now = record m { history = put m.history (snapshot_record r.run r.info now) }

unfoldable pub closed_run : OpenRun → OpenRun
closed_run r = record r { run = close r.run }

-- A run that was taken out is recorded first and closed then.
unfoldable pub retire : Manager → Option OpenRun → ℕ → Manager × Option OpenRun
retire m none now = (m, none)
retire m (some r) now = (keep_record m r now, some (closed_run r))

unfoldable pub evict_oldest : Manager → ℕ → List Bytes → Manager × Option OpenRun
evict_oldest m now [] = (m, none)
evict_oldest m now (oldest ∷ rest) =
    retire (record m { runs = delete_run m.runs oldest; order = rest }) (find_run m.runs oldest) now

-- `evictIfNeeded`.
unfoldable pub evict_if_needed : Manager → ℕ → Manager × Option OpenRun
evict_if_needed m now =
    if leb max_runs (length m.order) then evict_oldest m now m.order else (m, none)

unfoldable pub register : Manager → OpenRun → Manager
register m r = record m {
  runs = r ∷ delete_run m.runs r.info.id;
  order = m.order ++ (r.info.id ∷ []);
}

-- `StartAsync`, up to the start of the preparation; `info` has the new id.
unfoldable pub start_async : Manager → Case → RunInfo → ℕ → Manager × Option OpenRun
start_async m c info now =
    let r : OpenRun = record { run = new_run c; info = info } in
    let (m', closed) = evict_if_needed m now in (register (keep_record m' r now) r, closed)

unfoldable pub close_found :
    Manager → Bytes → ℕ → Option OpenRun → Option (Manager × Option OpenRun)
close_found m id now none = none
close_found m id now (some r) = some (
    retire (record m { runs = delete_run m.runs id; order = remove_first m.order id }) (some r) now)

-- `CloseRun`; `none` is the error of an unknown run.
unfoldable pub close_run : Manager → Bytes → ℕ → Option (Manager × Option OpenRun)
close_run m id now = close_found m id now (find_run m.runs id)

unfoldable pub keep_all : Manager → List OpenRun → ℕ → Manager
keep_all m [] now = m
keep_all m (r ∷ rs) now = keep_all (keep_record m r now) rs now

-- `CloseAll`.
unfoldable pub close_all : Manager → ℕ → Manager × List OpenRun
close_all m now = (keep_all (record m { runs = []; order = [] }) m.runs now, map closed_run m.runs)

unfoldable pub get_run : Manager → Bytes → Option OpenRun
get_run m id = find_run m.runs id

unfoldable pub list_from : List OpenRun → List Bytes → List OpenRun
list_from rs [] = []
list_from rs (id ∷ ids) =
    let rest = list_from rs ids in elim (find_run rs id) [ none ↦ rest | some r ↦ rest ++ (r ∷ []) ]

-- `List`: the newest first.
unfoldable pub list_runs : Manager → List OpenRun
list_runs m = list_from m.runs m.order
