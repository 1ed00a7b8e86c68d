-- ===== src/Engine/Locks/Named.antt =====
-- Whom a snapshot names as blockers, in terms of the rows that it is made of (engine/inspect.go,
-- `Snapshot` and `BlockedBy`).
use deadlocker.Base.{
  ℕ, Bool, true, false, not, ◌&&◌, ◌||◌, List, [], ◌∷◌, Bytes, bytes_eq, bytes_eq_iff, ◌≡◌, refl,
  ◌∙◌, arith,
}
use deadlocker.Engine.Types.{Lock, LockWait}
use deadlocker.Engine.Locks.{contains_id, is_blank, names_blocker, blocked_by}
use deadlocker.Engine.Locks.Blockers.{blocks, distinct, blocked_by-blocks}
use deadlocker.Engine.Locks.Snapshot.{
  LockRow, WaitRow, Answer, query_failed, answered, actor_of, wait_of, waits_of, add_waits,
  take_snapshot,
}

-- The rows of waits that a snapshot sees: none when one of the two queries fails.
pub seen_waits : Answer LockRow → Answer WaitRow → List WaitRow
seen_waits (query_failed e) waits = []
seen_waits (answered rows ended) (query_failed e) = []
seen_waits (answered rows ended) (answered waits early) = waits

-- A connection of `actor` waits for one of `other`, which is another actor of the run.
pub waits_for : List (ℕ × Bytes) → Bytes → Bytes → List WaitRow → Bool
waits_for actors actor other [] = false
waits_for actors actor other (r ∷ rows) =
    (bytes_eq (actor_of actors r.waiting_thread) actor
      && bytes_eq (actor_of actors r.blocking_thread) other
      && not (is_blank other)
      && not (bytes_eq other actor))
    || waits_for actors actor other rows

names_blocker-other :
    (actor other : Bytes) (w : LockWait)
    → (names_blocker actor w && bytes_eq w.blocking_actor other) ≡ (
        bytes_eq w.waiting_actor actor
        && bytes_eq w.blocking_actor other
        && not (is_blank other)
        && not (bytes_eq other actor))
unfolding names_blocker is_blank
names_blocker-other actor other w = grind (arith, bytes_eq_iff w.blocking_actor other)

waits_of-waits_for :
    (actors : List (ℕ × Bytes)) (locks : List Lock) (actor other : Bytes) (rows : List WaitRow)
    → blocks (waits_of actors locks rows) actor other ≡ waits_for actors actor other rows
unfolding blocks waits_of wait_of waits_for names_blocker is_blank
waits_of-waits_for actors locks actor other [] = refl
waits_of-waits_for actors locks actor other (r ∷ rows) = ground (
  arith,
  names_blocker-other actor other (wait_of actors locks r),
  waits_of-waits_for actors locks actor other rows,
)

take_snapshot-waits_for :
    (actors : List (ℕ × Bytes)) (locks : Answer LockRow) (waits : Answer WaitRow)
    (actor other : Bytes)
    → blocks (take_snapshot actors locks waits).snapshot.waits actor other
      ≡ waits_for actors actor other (seen_waits locks waits)
unfolding take_snapshot add_waits seen_waits blocks waits_for
take_snapshot-waits_for actors (query_failed e) waits actor other = refl
take_snapshot-waits_for actors (answered rows ended) (query_failed e) actor other = refl
take_snapshot-waits_for actors (answered rows ended) (answered waits early) actor other =
    waits_of-waits_for actors _ actor other waits

-- The blockers that a snapshot names for an actor are exactly the other actors of the run that, by
-- some row of the waits that were read, one of the actor's connections waits for, and each is named
-- once. When a query fails, none is named.
pub take_snapshot-blocked_by :
    (actors : List (ℕ × Bytes)) (locks : Answer LockRow) (waits : Answer WaitRow)
    (actor other : Bytes)
    → (contains_id (blocked_by (take_snapshot actors locks waits).snapshot actor) other
        ≡ waits_for actors actor other (seen_waits locks waits))
      × (distinct (blocked_by (take_snapshot actors locks waits).snapshot actor) ≡ true)
take_snapshot-blocked_by actors locks waits actor other =
    let blocking = blocked_by-blocks (take_snapshot actors locks waits).snapshot actor other in
    (blocking.0 ∙ take_snapshot-waits_for actors locks waits actor other, blocking.1)
