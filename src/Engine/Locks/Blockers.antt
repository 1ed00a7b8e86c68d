-- ===== src/Engine/Locks/Blockers.antt =====
-- The blockers of an actor in a snapshot (engine/inspect.go, `BlockedBy`).
use deadlocker.Base.{
  Bool, true, false, not, ◌&&◌, ◌||◌, List, [], ◌∷◌, ◌++◌, Bytes, bytes_eq, bytes_eq_iff, ◌≡◌, refl,
  arith,
}
use deadlocker.Engine.Types.{LockWait, LockSnapshot}
use deadlocker.Engine.Locks.{contains_id, names_blocker, blocked_by_from, blocked_by}

-- Some wait of the snapshot makes `other` a blocker of the actor: the actor waits for it, and it is
-- named and not the actor itself.
unfoldable pub blocks : List LockWait → Bytes → Bytes → Bool
blocks [] actor other = false
blocks (w ∷ ws) actor other =
    (names_blocker actor w && bytes_eq w.blocking_actor other) || blocks ws actor other

-- No id stands twice.
pub distinct : List Bytes → Bool
distinct [] = true
distinct (x ∷ xs) = not (contains_id xs x) && distinct xs

contains_id-append :
    (xs : List Bytes) (y k : Bytes)
    → contains_id (xs ++ (y ∷ [])) k ≡ (contains_id xs k || bytes_eq y k)
unfolding contains_id
contains_id-append [] y k = ground arith
contains_id-append (x ∷ xs) y k = ground (arith, contains_id-append xs y k)

distinct-append :
    (xs : List Bytes) (y : Bytes)
    → distinct xs ≡ true
    → contains_id xs y ≡ false
    → distinct (xs ++ (y ∷ [])) ≡ true
unfolding distinct contains_id
distinct-append [] y h k = refl
distinct-append (x ∷ xs) y h k =
    ground
      (arith, distinct-append xs y, contains_id-append xs y x, bytes_eq_iff x y, bytes_eq_iff y x)

blocked_by_from-lem :
    (actor other : Bytes) (seen : List Bytes) (ws : List LockWait)
    → distinct seen ≡ true
    → (contains_id (blocked_by_from actor seen ws) other
        ≡ (contains_id seen other || blocks ws actor other))
      × (distinct (blocked_by_from actor seen ws) ≡ true)
unfolding blocked_by_from blocks
blocked_by_from-lem actor other seen [] h = ground arith
blocked_by_from-lem actor other seen (w ∷ ws) h = ground (
  arith,
  blocked_by_from-lem actor other (seen ++ (w.blocking_actor ∷ [])) ws,
  blocked_by_from-lem actor other seen ws h,
  distinct-append seen w.blocking_actor h,
  contains_id-append seen w.blocking_actor other,
  bytes_eq_iff w.blocking_actor other,
)

-- An id is listed exactly when some wait of the snapshot makes it a blocker, and is listed once.
pub blocked_by-blocks :
    (s : LockSnapshot) (actor other : Bytes)
    → (contains_id (blocked_by s actor) other ≡ blocks s.waits actor other)
      × (distinct (blocked_by s actor) ≡ true)
unfolding blocked_by contains_id distinct
blocked_by-blocks s actor other = ground (arith, blocked_by_from-lem actor other [] s.waits refl)
