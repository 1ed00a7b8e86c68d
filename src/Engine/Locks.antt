-- ===== src/Engine/Locks.antt =====
-- What a lock snapshot says (engine/inspect.go, engine/run.go).
pub mod Blockers
pub mod Explain
pub mod Snapshot
pub mod Named
mod Tests
use deadlocker.Base.{
  ℕ, Bool, true, false, not, ◌&&◌, ◌||◌, Option, none, some, List, [], ◌∷◌, ◌++◌, Bytes, bytes_eq,
  str, trim_space, if◌then◌else◌,
}
use deadlocker.Engine.Types.{Lock, LockWait, LockSnapshot}

unfoldable pub contains_id : List Bytes → Bytes → Bool
contains_id [] k = false
contains_id (x ∷ xs) k = bytes_eq x k || contains_id xs k

unfoldable pub is_blank : Bytes → Bool
is_blank s = bytes_eq s []

-- Whether a wait names a blocker of the actor.
unfoldable pub names_blocker : Bytes → LockWait → Bool
names_blocker actor w = not (
    not (bytes_eq w.waiting_actor actor)
    || is_blank w.blocking_actor
    || bytes_eq w.blocking_actor actor)

-- The loop over the waits; `seen` is what was put out so far, newest last.
unfoldable pub blocked_by_from : Bytes → List Bytes → List LockWait → List Bytes
blocked_by_from actor seen [] = seen
blocked_by_from actor seen (w ∷ ws) =
    blocked_by_from actor
      (if names_blocker actor w && not (contains_id seen w.blocking_actor)
        then seen ++ (w.blocking_actor ∷ [])
        else seen)
      ws

unfoldable pub blocked_by : LockSnapshot → Bytes → List Bytes
blocked_by s actor = blocked_by_from actor [] s.waits

unfoldable pub wait_for_from : List LockWait → Bytes → Option LockWait
wait_for_from [] actor = none
wait_for_from (w ∷ ws) actor =
    if bytes_eq w.waiting_actor actor then some w else wait_for_from ws actor

unfoldable pub wait_for : LockSnapshot → Bytes → Option LockWait
wait_for s actor = wait_for_from s.waits actor

-- The dash that stands for an empty text.
unfoldable pub empty_dash : Bytes → Bytes
empty_dash s = if is_blank s then 0xe2 ∷ 0x80 ∷ 0x94 ∷ [] else s

-- One lock of a wait, as `mode on table.index (data): reading`.
unfoldable pub lock_phrase : Lock → Bytes
lock_phrase l =
    l.lock_mode
    ++ str " on "
    ++ l.table
    ++ str "."
    ++ l.index
    ++ str " ("
    ++ empty_dash l.lock_data
    ++ str "): "
    ++ l.explain

unfoldable pub option_phrase : Bytes → Option Lock → Bytes → Bytes
option_phrase before none after = []
option_phrase before (some l) after = before ++ lock_phrase l ++ after

unfoldable pub describe_wait : LockWait → Bytes
describe_wait w = trim_space (
    (if is_blank w.blocking_actor
      then str "Waiting for a lock held by another transaction. "
      else str "Waiting for a lock held by " ++ w.blocking_actor ++ str ". ")
    ++ option_phrase (str "Requesting ") w.waiting_lock (str " ")
    ++ option_phrase (str "Blocked by ") w.blocking_lock [])

unfoldable pub describe_option : Option LockWait → Bytes → Bytes
describe_option none before = before
describe_option (some w) before = describe_wait w
